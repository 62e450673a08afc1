-- ===== src/Log/Recorded.antt =====
-- src/log/tty/mut_log.c: what any sequence of calls writes, to whatever sinks.
use mut.Base.{
  String, true, false, List, [], ◌∷◌, refl, Outcome, final, ok, fail, halt, spent, ◌++◌, and_then,
  modify, ◌>>◌, if◌then◌else◌,
}
use mut.Machine.{
  Os, Item, fatal, mem_full, error, warning, info, str, int, uint, hex, long, ulong, Machine,
}
use mut.Log.{
  open_log, prog_name, log_fatal, log_mem_full, log_error, log_warning, log_info, log_string,
  log_int, log_uint, log_uint_hex, log_long, log_ulong, log_file, finish,
}
use mut.Log.Protocol.{
  LogCall, call_name, call_fatal, call_string, call_full, call_int, call_uint, call_hex, call_long,
  call_ulong, call_error, call_warning, call_info, call_uint64, call_end, call_file, call,
  left_behind, earlier_sinks, session, of_fatal, of_full, of_error, of_warning, of_info, of_str,
  of_int, of_uint, of_hex, of_long, of_ulong, nothing, Recorded,
}
use mut.Log.Steps.{Good, start-Good, argument-Good, uint64_cases, final-then, finish-Good}

module _ {W : Type 0} (os : Os W) (before : List Item) where
  -- Where the file cannot be opened.
  unopened-Good :
      (name : String) (m : Machine W)
      → Good before m
      → Good before (final ((log_warning os "io.open" >> (log_string os name >> finish os)) m))
  unfolding log_warning log_string
  unopened-Good name m g =
      final-then os before (log_warning os "io.open" m) _
        (start-Good os before false (λ p. warning p "io.open") (λ p. of_warning p "io.open") m g)
        (λ _ t h.
          final-then os before (log_string os name t) _
            (argument-Good os before (str name) (of_str name) t h)
            (λ _ u k. finish-Good os before u k))

module _ {W : Type 0} (os : Os W) where
  file-Good :
      (name : String) (before : List Item) (m : Machine W)
      → Good before m
      → Good (left_behind os (call_file name) m before) (final (log_file os name m))
  unfolding left_behind log_file
  file-Good name before m g =
      let (opened, w) = os.fopen name m.world in
      let t : Machine W = record m { world = w } in
      elim opened
        as (λ b. Good (if b then m.log.sink ++ before else before) (
          final (
            (if b
                then (modify λ m. record m { log = record m.log { sink = [] } })
                else (do log_warning os "io.open"; log_string os name; finish os))
              t))) [
                | true ↦ record {
                  is_open = g.is_open;
                  is_fatal = g.is_fatal;
                  shape = g.shape;
                  open_told = g.open_told;
                  fatal_told = g.fatal_told;
                }
                | false ↦ unopened-Good os before name t (record {
                  is_open = g.is_open;
                  is_fatal = g.is_fatal;
                  shape = g.shape;
                  open_told = g.open_told;
                  fatal_told = g.fatal_told;
                })
              ]

  call-Good :
      (c : LogCall) (before : List Item) (m : Machine W)
      → Good before m
      → Good (left_behind os c m before) (final (call os c m))
  unfolding call left_behind prog_name log_fatal log_mem_full log_error log_warning log_info
      log_string log_int log_uint log_uint_hex log_long log_ulong
  call-Good (call_name s) b m g = record {
    is_open = g.is_open;
    is_fatal = g.is_fatal;
    shape = g.shape;
    open_told = g.open_told;
    fatal_told = g.fatal_told;
  }
  call-Good (call_fatal s n) b m g =
      start-Good os b true (λ p. fatal p n s) (λ p. of_fatal p n s) m g
  call-Good (call_full n) b m g = start-Good os b true (λ p. mem_full p n) (λ p. of_full p n) m g
  call-Good (call_error s) b m g = start-Good os b false (λ p. error p s) (λ p. of_error p s) m g
  call-Good (call_warning s) b m g =
      start-Good os b false (λ p. warning p s) (λ p. of_warning p s) m g
  call-Good (call_info s) b m g = start-Good os b false (λ p. info p s) (λ p. of_info p s) m g
  call-Good (call_string s) b m g = argument-Good os b (str s) (of_str s) m g
  call-Good (call_int n) b m g = argument-Good os b (int n) (of_int n) m g
  call-Good (call_uint n) b m g = argument-Good os b (uint n) (of_uint n) m g
  call-Good (call_hex n) b m g = argument-Good os b (hex n) (of_hex n) m g
  call-Good (call_long n) b m g = argument-Good os b (long n) (of_long n) m g
  call-Good (call_ulong n) b m g = argument-Good os b (ulong n) (of_ulong n) m g
  call-Good (call_uint64 i) b m g =
      uint64_cases os b i m.log.fatal_error m.log.logging m.log.internal_error m g
  call-Good call_end b m g = finish-Good os b m g
  call-Good (call_file name) b m g = file-Good name b m g

  -- The rest of a session goes on from what a call has left.
  rest_of :
      (o : Outcome (Machine W) (Unit {0})) (left : List Item) (cs : List LogCall)
      → Good left (final o)
      → ((t : Machine W)
          → Good left t
          → Good (earlier_sinks os cs t left) (final (session os cs t)))
      → Good
          (elim o [
            | ok _ t ↦ earlier_sinks os cs t left
            | fail _ ↦ left
            | halt _ ↦ left
            | spent _ ↦ left
          ])
          (final (and_then o (λ _. session os cs)))
  rest_of (ok _ t) left cs g next = next t g
  rest_of (fail t) left cs g next = g
  rest_of (halt t) left cs g next = g
  rest_of (spent t) left cs g next = g

  session-Good :
      (cs : List LogCall) (before : List Item) (m : Machine W)
      → Good before m
      → Good (earlier_sinks os cs m before) (final (session os cs m))
  unfolding session earlier_sinks
  session-Good [] b m g = g
  session-Good (c ∷ cs) b m g =
      rest_of (call os c m) (left_behind os c m b) cs (call-Good c b m g)
        (λ t. session-Good cs (left_behind os c m b) t)

  -- After any sequence of calls of the functions of mut_log.c between mut_log_open and
  -- mut_log_close, in any order, on whatever machine and however the calls end, what has been
  -- written to all the sinks one after the other, mut_log_file having changed them, is records of
  -- one head, arguments and an end, the last perhaps not ended, and none behind a fatal one; as
  -- long as no write has failed, the flags of the log say whether the last is open and whether it
  -- is fatal.
  pub session-Recorded :
      (cs : List LogCall) (name : String) (m : Machine W)
      → let opened = record m { log = open_log name } in
        Recorded (earlier_sinks os cs opened []) (final (session os cs opened)).log
  unfolding open_log
  session-Recorded cs name m =
      session-Good cs [] (record m { log = open_log name })
        (record {
          is_open = false;
          is_fatal = false;
          shape = nothing refl refl;
          open_told = λ _. refl;
          fatal_told = λ _. refl;
        })
