-- ===== src/Aircraft/Stored.antt =====
-- What an entry of the table holds of a line, and that it keeps it.
use inmarsat_sniffer.Base.{
  ℕ, ◌+◌, ◌<◌, ◌==◌, ◌≡◌, refl, sym, ap, ◌∙◌, subst, arith, true, false, List, [], ◌++◌, Option,
  map, length, length-append, ◌≤◌, ◌^◌,
}
use mathlib.Core.List.{append_assoc, append-nil}
use inmarsat_sniffer.Base.Int.{ℤ}
use inmarsat_sniffer.Text.{toupper}
use inmarsat_sniffer.Aircraft.Line.{Fields}
use inmarsat_sniffer.Aircraft.Strings.{
  strings_add, strings_get, said, strings_get-added, strings_add-grows,
}
use inmarsat_sniffer.Aircraft.{Entry, Db, Info, info, add_entry}

-- The index reads the field from a buffer of at most 2 GiB, whatever is added to it.
abbrev pub Says : List ℕ → ℤ → Option (List ℕ) → Type 0
Says strings idx field =
    length strings ≤ 2 ^ 31 → (later : List ℕ) → strings_get (strings ++ later) idx ≡ said field

-- The entry holds the fields of a line.
pub record Stored (strings : List ℕ) (e : Entry) (f : Fields) : Type 0 where
  pub reg : e.reg ≡ f.reg
  pub hex : e.hex ≡ map toupper f.hex
  pub type : Says strings e.type_idx f.type
  pub desc : Says strings e.desc_idx f.desc
  pub op : Says strings e.op_idx f.op

-- What is reported of an aircraft, from the fields of its line.
abbrev pub info_of : Fields → Info
info_of f = record {
  registration = f.reg;
  type = said f.type;
  description = said f.desc;
  operator = said f.op;
}

Says-grows :
    (strings more : List ℕ) (idx : ℤ) (field : Option (List ℕ))
    → Says strings idx field
    → Says (strings ++ more) idx field
Says-grows strings more idx field h fits later =
    ap (λ s. strings_get s idx) (append_assoc strings more later)
    ∙ h (omega (arith, fits, length-append strings more)) (more ++ later)

Says-added :
    (strings : List ℕ) (field : Option (List ℕ))
    → Says (strings_add strings field).1 (strings_add strings field).0 field
Says-added strings field fits later = strings_get-added strings field later fits

Says-kept :
    (strings : List ℕ) (next : Option (List ℕ)) (idx : ℤ) (field : Option (List ℕ))
    → Says strings idx field
    → Says (strings_add strings next).1 idx field
Says-kept strings next idx field h =
    let (more, e) = strings_add-grows strings next in
    subst (λ s. Says s idx field) (sym e) (Says-grows strings more idx field h)

Says-here :
    (strings : List ℕ) (idx : ℤ) (field : Option (List ℕ))
    → Says strings idx field
    → length strings ≤ 2 ^ 31
    → strings_get strings idx ≡ said field
Says-here strings idx field h fits =
    ap (λ s. strings_get s idx) (sym (append-nil strings)) ∙ h fits []

pub Stored-info :
    (d : Db) (e : Entry) (f : Fields)
    → Stored d.strings e f
    → length d.strings ≤ 2 ^ 31
    → info d e ≡ info_of f
unfolding info
Stored-info d e f s fits = rw (
  s.reg,
  Says-here d.strings e.type_idx f.type s.type fits,
  Says-here d.strings e.desc_idx f.desc s.desc fits,
  Says-here d.strings e.op_idx f.op s.op fits,
)

-- The entry at the end is the line's, and the others are kept.
pub add_entry-Stored :
    (d : Db) (f : Fields) → Stored (add_entry d f).strings ((add_entry d f).db d.db_count) f
unfolding add_entry
add_entry-Stored d f =
    let s1 = (strings_add d.strings f.type).1 in
    let s2 = (strings_add s1 f.desc).1 in
    let here : (d.db_count == d.db_count) ≡ true = ground arith in
    rw here (record {
      reg = refl;
      hex = refl;
      type =
          Says-kept s2 f.op _ f.type (Says-kept s1 f.desc _ f.type (Says-added d.strings f.type));
      desc = Says-kept s2 f.op _ f.desc (Says-added s1 f.desc);
      op = Says-added s2 f.op;
    })

-- An entry stays stored while the buffer takes three strings more.
Stored-kept :
    (strings : List ℕ) (f : Fields) (e : Entry) (g : Fields)
    → Stored strings e g
    → Stored (strings_add (strings_add (strings_add strings f.type).1 f.desc).1 f.op).1 e g
Stored-kept strings f e g s =
    let s1 = (strings_add strings f.type).1 in
    let s2 = (strings_add s1 f.desc).1 in
    let keep : (idx : ℤ) (field : Option (List ℕ))
        → Says strings idx field
        → Says (strings_add s2 f.op).1 idx field =
      λ idx field h.
        Says-kept s2 f.op idx field
          (Says-kept s1 f.desc idx field (Says-kept strings f.type idx field h)) in
    record {
      reg = s.reg;
      hex = s.hex;
      type = keep e.type_idx g.type s.type;
      desc = keep e.desc_idx g.desc s.desc;
      op = keep e.op_idx g.op s.op;
    }

pub add_entry-kept :
    (d : Db) (f g : Fields) (i : ℕ)
    → i < d.db_count
    → Stored d.strings (d.db i) g
    → Stored (add_entry d f).strings ((add_entry d f).db i) g
unfolding add_entry
add_entry-kept d f g i h s =
    let other : (i == d.db_count) ≡ false = ground (arith, h) in
    rw other (Stored-kept d.strings f (d.db i) g s)

pub add_entry-count : (d : Db) (f : Fields) → (add_entry d f).db_count ≡ d.db_count + 1
unfolding add_entry
add_entry-count d f = refl
