-- ===== src/Aircraft/Inv.antt =====
-- What the loop of `aircraft_db_load` stores: the accepted lines, and nothing else.
use inmarsat_sniffer.Base.{
  ℕ, ◌<◌, ◌≡◌, refl, sym, subst, arith, inl, inr, List, [], ◌∷◌, none, some, Option-cases, dec_lt,
}
use mathlib.Core.List.{Memᴰ}
use mathlib.Core.List.Memᴰ
use inmarsat_sniffer.Text.{c_string}
use inmarsat_sniffer.Aircraft.Line.{Fields, parse_line}
use inmarsat_sniffer.Aircraft.{Db, add_entry, load_line, load_lines, destroyed}
use inmarsat_sniffer.Aircraft.Stored.{Stored, add_entry-Stored, add_entry-kept, add_entry-count}

-- Every entry is that of a known line.
abbrev AllKnown : (Fields → Type 0) → Db → Type 0
AllKnown Known d = (i : ℕ) → i < d.db_count → (f : Fields) × Known f × Stored d.strings (d.db i) f

-- Some entry is that of the line.
abbrev pub Has : Db → Fields → Type 0
Has d f = (i : ℕ) × (i < d.db_count) × Stored d.strings (d.db i) f

add_entry-AllKnown :
    (Known : Fields → Type 0) (d : Db) (f : Fields)
    → Known f
    → AllKnown Known d
    → AllKnown Known (add_entry d f)
add_entry-AllKnown Known d f known all i h =
    let more = add_entry-count d f in
    elim (dec_lt i d.db_count) [
      | yes lt ↦ let (g, g_known, s) = all i lt in (g, g_known, add_entry-kept d f g i lt s)
      | no ge ↦
          let last : d.db_count ≡ i = omega arith in
          (
            f,
            known,
            subst (λ k. Stored (add_entry d f).strings ((add_entry d f).db k) f) last
                (add_entry-Stored d f),
          )
    ]

add_entry-Has : (d : Db) (f g : Fields) → Has d g → Has (add_entry d f) g
add_entry-Has d f g (i, h, s) =
    let more = add_entry-count d f in (i, omega arith, add_entry-kept d f g i h s)

add_entry-Has_self : (d : Db) (f : Fields) → Has (add_entry d f) f
add_entry-Has_self d f =
    let more = add_entry-count d f in (d.db_count, omega arith, add_entry-Stored d f)

-- A line of the file that is accepted, with the fields `f`.
abbrev pub Accepted : List (List ℕ) → Fields → Type 0
Accepted lines f = (line : List ℕ) × Memᴰ line lines × (parse_line (c_string line) ≡ some f)

load_line-refused :
    (d : Db) (line : List ℕ) → parse_line (c_string line) ≡ none → load_line d line ≡ d
unfolding load_line
load_line-refused d line refused = ground (arith, refused)

load_line-accepted :
    (d : Db) (line : List ℕ) (f : Fields)
    → parse_line (c_string line) ≡ some f
    → load_line d line ≡ add_entry d f
unfolding load_line
load_line-accepted d line f accepted = ground (arith, accepted)

load_line-AllKnown :
    (Known : Fields → Type 0) (d : Db) (line : List ℕ)
    → ((f : Fields) → parse_line (c_string line) ≡ some f → Known f)
    → AllKnown Known d
    → AllKnown Known (load_line d line)
load_line-AllKnown Known d line known all = elim (Option-cases (parse_line (c_string line))) [
  | inl refused ↦ subst (AllKnown Known) (sym (load_line-refused d line refused)) all
  | inr (f, accepted) ↦
      subst (AllKnown Known) (sym (load_line-accepted d line f accepted))
        (add_entry-AllKnown Known d f (known f accepted) all)
]

load_lines-AllKnown :
    (Known : Fields → Type 0) (d : Db) (lines : List (List ℕ))
    → ((f : Fields) → Accepted lines f → Known f)
    → AllKnown Known d
    → AllKnown Known (load_lines d lines)
unfolding load_lines
load_lines-AllKnown Known d [] known all = all
load_lines-AllKnown Known d (line ∷ lines) known all =
    load_lines-AllKnown Known (load_line d line) lines (λ f a. known f (a.0, Memᴰ.tail a.1, a.2))
      (load_line-AllKnown Known d line (λ f e. known f (line, Memᴰ.head refl, e)) all)

load_line-Has : (d : Db) (line : List ℕ) (g : Fields) → Has d g → Has (load_line d line) g
load_line-Has d line g has = elim (Option-cases (parse_line (c_string line))) [
  | inl refused ↦ subst (λ e. Has e g) (sym (load_line-refused d line refused)) has
  | inr (f, accepted) ↦
      subst (λ e. Has e g) (sym (load_line-accepted d line f accepted)) (add_entry-Has d f g has)
]

load_line-Has_self :
    (d : Db) (line : List ℕ) (f : Fields)
    → parse_line (c_string line) ≡ some f
    → Has (load_line d line) f
load_line-Has_self d line f accepted =
    subst (λ e. Has e f) (sym (load_line-accepted d line f accepted)) (add_entry-Has_self d f)

load_lines-kept :
    (d : Db) (lines : List (List ℕ)) (g : Fields) → Has d g → Has (load_lines d lines) g
unfolding load_lines
load_lines-kept d [] g has = has
load_lines-kept d (line ∷ lines) g has =
    load_lines-kept (load_line d line) lines g (load_line-Has d line g has)

-- Every accepted line is in the table.
pub load_lines-Has :
    (d : Db) (lines : List (List ℕ)) (f : Fields) → Accepted lines f → Has (load_lines d lines) f
unfolding load_lines
load_lines-Has d [] f (line, here, e) = absurd (Memᴰ.not-nil here)
load_lines-Has d (first ∷ lines) f (line, Memᴰ.head same, e) =
    load_lines-kept (load_line d first) lines f
      (load_line-Has_self d first f (subst (λ l. parse_line (c_string l) ≡ some f) same e))
load_lines-Has d (first ∷ lines) f (line, Memᴰ.tail later, e) =
    load_lines-Has (load_line d first) lines f (line, later, e)

-- Every entry of the table is that of an accepted line.
pub load_lines-Accepted :
    (lines : List (List ℕ)) (i : ℕ)
    → i < (load_lines destroyed lines).db_count
    → (f : Fields) × Accepted lines f
      × Stored (load_lines destroyed lines).strings ((load_lines destroyed lines).db i) f
load_lines-Accepted lines =
    load_lines-AllKnown (Accepted lines) destroyed lines (λ f a. a) (λ i h. absurd (omega arith))
