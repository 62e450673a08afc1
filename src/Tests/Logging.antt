-- ===== src/Tests/Logging.antt =====
-- src/log/tty/mut_log.c at concrete inputs.
use mut.Base.{ℕ, List, [], ◌∷◌, ◌≡◌, refl, final}
use mut.Machine.{Machine, str, warning, fatal, counter, newline}
use mut.Log.{
  open_log, emit, start, argument, log_warning, log_string, log_uint64, log_fatal, log_file,
  log_end, finish,
}
use mut.Counter.{uint64, uint64_out, out_digits, udiv10, divide_chunks, divide_chunk}
use mut.Log.Protocol.{
  LogCall, call_fatal, call_warning, call_string, call_uint64, call_end, call_file, call,
  left_behind, earlier_sinks, session, Recorded,
}
use mut.Log.Recorded.{session-Recorded}
use mut.Tests.Sample.{toy_os, toy_machine}

-- A warning with a counter, a new sink in its middle, a fatal record, and a call that the
-- preconditions refuse.
abbrev calls : List LogCall
calls =
    call_warning "w"
    ∷ call_string "x"
    ∷ call_file "other"
    ∷ call_uint64 (uint64 1 7)
    ∷ call_end
    ∷ call_fatal "f" 2
    ∷ call_end
    ∷ call_warning "late"
    ∷ call_end
    ∷ []

abbrev opened : Machine ℕ
opened = record toy_machine { log = open_log "mut" }

two_sinks :
    (earlier_sinks toy_os calls opened [] ≡ str "x" ∷ warning "mut" "w" ∷ [])
    × ((final (session toy_os calls opened)).log.sink
        ≡ newline ∷ fatal "mut" 2 "f" ∷ newline ∷ counter 0x100000007 ∷ [])
unfolding earlier_sinks session call left_behind log_warning log_string log_file log_uint64
    log_fatal finish log_end start argument emit uint64_out open_log out_digits udiv10 divide_chunks
    divide_chunk
two_sinks = (refl, refl)

session-Recorded_example :
    Recorded (earlier_sinks toy_os calls opened []) (final (session toy_os calls opened)).log
session-Recorded_example = session-Recorded toy_os calls "mut" toy_machine
