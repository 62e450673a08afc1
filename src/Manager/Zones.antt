-- ===== src/Manager/Zones.antt =====
-- The safety zones of src/mut.c: one word before and one word after each object.
use mut.Base.{
  ℕ, ◌+◌, ◌*◌, ◌/◌, ◌%◌, ◌^◌, ◌<◌, ◌≤◌, ◌≡◌, ◌≢◌, ◌↔◌, not, Cmd, pure, failed, ◌>>=◌, ◌>>◌, arith,
  add32, sub32, mul32, if◌then◌else◌, ◌==◌,
}
use mut.Process.{read_word, write_word, write_result}
use mut.Machine.{Os, Machine}
use mut.Resources.Defs.{ActionId, Resource}
use mut.Manager.Reports.{View, log_wum}

abbrev pub zone_size : ℕ
zone_size = 4

abbrev pub zone_value : ℕ
zone_value = 0xDEADBEEF

-- `mut_round_up`; the mask `& ~3` drops what is below a multiple of 4.
unfoldable pub round_up : ℕ → ℕ
round_up size = add32 (add32 size 3 / 4 * 4) 8

-- The number of words that `mut_do_calloc` asks for.
unfoldable pub calloc_zones : (n_elems elem_size : ℕ) → ℕ
calloc_zones n_elems elem_size = add32 (mul32 n_elems elem_size / 4) 3

-- Where `mut_install_check_zones` writes behind an object that the target's routine put at `addr`,
-- with `size` bytes asked for.
unfoldable pub installed_post_zone : (addr size : ℕ) → ℕ
installed_post_zone addr size = sub32 (add32 addr size) zone_size

-- Where `mut_zone_check` reads behind an object of `size` bytes at `obj_addr`.
unfoldable pub checked_post_zone : (obj_addr size : ℕ) → ℕ
unfolding round_up
checked_post_zone obj_addr size = sub32 (add32 (sub32 obj_addr zone_size) (round_up size)) zone_size

module _ {W : Type 0} (os : Os W) where
  -- `mut_install_check_zones`: its result is the address that the target gets to see.
  unfoldable pub install_check_zones : (obj_addr size : ℕ) → Cmd (Machine W) ℕ
  unfolding installed_post_zone
  install_check_zones obj_addr size = do
    write_word os obj_addr zone_value
    write_word os (installed_post_zone obj_addr size) zone_value
    write_result os (add32 obj_addr zone_size)
    pure (add32 obj_addr zone_size)

  -- `mut_zone_check`
  unfoldable pub zone_check :
      View → (obj_addr : ℕ) → Resource → ActionId → (bt : ℕ) → Cmd (Machine W) (Unit {0})
  unfolding checked_post_zone
  zone_check v obj_addr obj consumer bt = do
    pre ← read_word os (sub32 obj_addr zone_size)
    if not (pre == zone_value)
        then (do log_wum os v obj_addr (sub32 obj_addr zone_size) pre consumer obj bt; failed)
        else (do
          post ← read_word os (checked_post_zone obj_addr obj.size)
          if not (post == zone_value)
              then (do
                log_wum os v obj_addr (checked_post_zone obj_addr obj.size) post consumer obj bt
                failed)
              else pure tt)

-- When the address of the block that malloc gave in check mode, the size of the object and 16 add
-- up to less than 2 ^ 32, the zone behind the object is checked where it was installed; it begins
-- at or behind the end of the object, by less than a word, ends where the block ends, and is
-- aligned as the block is.
pub post_zone_malloc :
    (addr size : ℕ)
    → addr + size + 16 < 2 ^ 32
    → let post = installed_post_zone addr (round_up size) in
      let end_of_object = addr + zone_size + size in
      (checked_post_zone (add32 addr zone_size) size ≡ post)
      × (end_of_object ≤ post)
      × (post < end_of_object + zone_size)
      × (post + zone_size ≡ addr + round_up size)
      × (post % zone_size ≡ addr % zone_size)
unfolding checked_post_zone installed_post_zone round_up
post_zone_malloc addr size h = (omega arith, omega arith, omega arith, omega arith, omega arith)

-- For an address of 32 bits and a size that the zones do not push over 32 bits, the zone behind an
-- object that calloc made is checked where it was installed exactly if the size is no multiple of
-- a word.
pub post_zone_calloc :
    (addr n_elems elem_size : ℕ)
    → addr < 2 ^ 32
    → n_elems * elem_size + 16 < 2 ^ 32
    → (checked_post_zone (add32 addr zone_size) (n_elems * elem_size)
        ≡ installed_post_zone addr (mul32 (calloc_zones n_elems elem_size) zone_size))
      ↔ (n_elems * elem_size % 4 ≢ 0)
unfolding checked_post_zone installed_post_zone round_up calloc_zones
post_zone_calloc addr n_elems elem_size ha hs = ground arith
