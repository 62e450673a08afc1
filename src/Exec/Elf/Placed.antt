-- ===== src/Exec/Elf/Placed.antt =====
-- src/exec/elf/mut_exec.c: where the pointers of the reader point, after and during the search for
-- sections.
use mut.Base.{ℕ, ◌+◌, ◌<◌, ◌≤◌, ◌≡◌, ◌≢◌, refl, Option, none, some, arith}
use mut.Exec.Elf.Types.{Shdr, Sections, sht_progbits, sht_symtab, sht_dynsym, sections_max}
use mut.Exec.Elf.Locate.{
  Kind, dsymtab, symtab, stabs, plt, pointer, take_slot, fill_slot, no_sections,
}

-- `SHT_...` of the sections that a pointer is for.
abbrev pub kind_type : Kind → ℕ
kind_type dsymtab = sht_dynsym
kind_type symtab = sht_symtab
kind_type stabs = sht_progbits
kind_type plt = sht_progbits

abbrev one_if : Option ℕ → ℕ
one_if none = 0
one_if (some _) = 1

-- The pointer is null, or points at a slot in use that holds a header of its kind.
abbrev pub PointsRight : Kind → Sections → Option ℕ → Type 0
PointsRight k s none = Unit
PointsRight k s (some n) = (n < s.free) × ((s.header n).sh_type ≡ kind_type k)

-- The slots in use are as many as the pointers that are not null, and each of these points at a
-- slot in use.
pub record Placed (s : Sections) : Type 0 where
  pub room : s.free ≤ sections_max
  pub counted : one_if s.dsymtab + one_if s.symtab + one_if s.stabs + one_if s.plt ≡ s.free
  pub at_dsymtab : PointsRight dsymtab s s.dsymtab
  pub at_symtab : PointsRight symtab s s.symtab
  pub at_stabs : PointsRight stabs s s.stabs
  pub at_plt : PointsRight plt s s.plt

PointsRight-fill :
    (k : Kind) (h : Shdr) (s : Sections) (p : Option ℕ)
    → PointsRight k s p
    → PointsRight k (fill_slot h s) p
unfolding fill_slot
PointsRight-fill k h s none r = tt
PointsRight-fill k h s (some n) r = ground (arith, r)

fill_slot-Placed : (h : Shdr) (s : Sections) → Placed s → Placed (fill_slot h s)
unfolding fill_slot
fill_slot-Placed h s p = record {
  room = p.room;
  counted = p.counted;
  at_dsymtab = PointsRight-fill dsymtab h s s.dsymtab p.at_dsymtab;
  at_symtab = PointsRight-fill symtab h s s.symtab p.at_symtab;
  at_stabs = PointsRight-fill stabs h s s.stabs p.at_stabs;
  at_plt = PointsRight-fill plt h s s.plt p.at_plt;
}

pub no_sections-Placed : (s : Sections) → Placed (no_sections s)
unfolding no_sections
no_sections-Placed s = record {
  room = omega arith;
  counted = refl;
  at_dsymtab = tt;
  at_symtab = tt;
  at_stabs = tt;
  at_plt = tt;
}

PointsRight-later :
    (k j : Kind) (s : Sections) (p : Option ℕ) → PointsRight j s p → PointsRight j (take_slot k s) p
unfolding take_slot
PointsRight-later k j s none r = tt
PointsRight-later dsymtab j s (some n) r = ground (arith, r)
PointsRight-later symtab j s (some n) r = ground (arith, r)
PointsRight-later stabs j s (some n) r = ground (arith, r)
PointsRight-later plt j s (some n) r = ground (arith, r)

-- The free slot is taken for a kind that has none yet.
pub take_slot-Placed :
    (k : Kind) (s : Sections)
    → Placed s
    → s.free ≢ sections_max
    → (s.header s.free).sh_type ≡ kind_type k
    → pointer k s ≡ none
    → Placed (take_slot k s)
unfolding take_slot
take_slot-Placed dsymtab s p left ty h = record {
  room = omega (arith, p.room, left);
  counted = ground (arith, p.counted, h);
  at_dsymtab = (omega arith, ty);
  at_symtab = PointsRight-later dsymtab symtab s s.symtab p.at_symtab;
  at_stabs = PointsRight-later dsymtab stabs s s.stabs p.at_stabs;
  at_plt = PointsRight-later dsymtab plt s s.plt p.at_plt;
}
take_slot-Placed symtab s p left ty h = record {
  room = omega (arith, p.room, left);
  counted = ground (arith, p.counted, h);
  at_dsymtab = PointsRight-later symtab dsymtab s s.dsymtab p.at_dsymtab;
  at_symtab = (omega arith, ty);
  at_stabs = PointsRight-later symtab stabs s s.stabs p.at_stabs;
  at_plt = PointsRight-later symtab plt s s.plt p.at_plt;
}
take_slot-Placed stabs s p left ty h = record {
  room = omega (arith, p.room, left);
  counted = ground (arith, p.counted, h);
  at_dsymtab = PointsRight-later stabs dsymtab s s.dsymtab p.at_dsymtab;
  at_symtab = PointsRight-later stabs symtab s s.symtab p.at_symtab;
  at_stabs = (omega arith, ty);
  at_plt = PointsRight-later stabs plt s s.plt p.at_plt;
}
take_slot-Placed plt s p left ty h = record {
  room = omega (arith, p.room, left);
  counted = ground (arith, p.counted, h);
  at_dsymtab = PointsRight-later plt dsymtab s s.dsymtab p.at_dsymtab;
  at_symtab = PointsRight-later plt symtab s s.symtab p.at_symtab;
  at_stabs = PointsRight-later plt stabs s s.stabs p.at_stabs;
  at_plt = (omega arith, ty);
}

-- A free slot that has just been filled with `h`.
pub record Filled (h : Shdr) (s : Sections) : Type 0 where
  pub placed : Placed s
  pub left : s.free ≢ sections_max
  pub holds : s.header s.free ≡ h

pub fill_slot-Filled :
    (h : Shdr) (s : Sections) → Placed s → s.free ≢ sections_max → Filled h (fill_slot h s)
fill_slot-Filled h s p left = record {
  placed = fill_slot-Placed h s p;
  left = unfold fill_slot in left;
  holds = unfold fill_slot in ground arith;
}
