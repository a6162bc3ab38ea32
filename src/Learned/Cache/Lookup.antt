-- ===== src/Learned/Cache/Lookup.antt =====
-- What the cache finds after a sighting is added.
use inmarsat_sniffer.Base.{
  ℕ, zero, suc, ◌+◌, ◌≤◌, ◌<◌, ◌≡◌, ◌≢◌, refl, ap, subst, arith, true, false, ltb, ◌&&◌,
  if◌then◌else◌, List, [], ◌∷◌, ◌++◌, none, some, length, take, Bool-cases, Option-cases, inl, inr,
}
use inmarsat_sniffer.Base.Int.{ℤ}
use inmarsat_sniffer.Learned.Cache.{
  Entry, Learned, same_string, count_sighting, new_entry, cache_add_locked, lookup_entry,
  learned_wp_lookup, learned_wp_max,
}

pub same_string_refl : (s : List ℕ) → same_string s s ≡ true
unfolding same_string
same_string_refl [] = refl
same_string_refl (c ∷ s) = ground (arith, same_string_refl s)

pub same_string→≡ : (s t : List ℕ) → same_string s t ≡ true → s ≡ t
unfolding same_string
same_string→≡ [] [] h = refl
same_string→≡ [] (c ∷ t) h = cc h
same_string→≡ (c ∷ s) [] h = cc h
same_string→≡ (c ∷ s) (c' ∷ t) h = ground (arith, same_string→≡ s t)

pub same_string_comm : (s t : List ℕ) → same_string s t ≡ same_string t s
unfolding same_string
same_string_comm [] [] = refl
same_string_comm [] (c ∷ t) = refl
same_string_comm (c ∷ s) [] = refl
same_string_comm (c ∷ s) (c' ∷ t) = ground (arith, same_string_comm s t)

-- `Counted name es es'`: the first entry of that name in `es` is seen once more in `es'`.
pub data Counted (name : List ℕ) : List Entry → List Entry → Type 0 where
  here :
      {e : Entry} {es : List Entry}
      → same_string e.ident name ≡ true
      → Counted name (e ∷ es) (record e { sightings = e.sightings + 1 } ∷ es)
  there :
      {e : Entry} {es es' : List Entry}
      → same_string e.ident name ≡ false
      → Counted name es es'
      → Counted name (e ∷ es) (e ∷ es')

pub count_sighting-Counted :
    (name : List ℕ) (es es' : List Entry) → count_sighting name es ≡ some es' → Counted name es es'
unfolding count_sighting
count_sighting-Counted name [] es' h = cc h
count_sighting-Counted name (e ∷ es) es' h = elim (Bool-cases (same_string e.ident name)) [
  | inl same ↦ subst (Counted name (e ∷ es)) (ground (arith, same, h)) (here same)
  | inr other ↦ elim (Option-cases (count_sighting name es)) [
    | inl missing ↦ absurd (ground (arith, other, missing, h))
    | inr (es'', found) ↦
        subst (Counted name (e ∷ es)) (ground (arith, other, found, h))
          (there other (count_sighting-Counted name es es'' found))
  ]
]

pub Counted-length :
    {name : List ℕ} {es es' : List Entry} → Counted name es es' → length es' ≡ length es
Counted-length (here same) = refl
Counted-length (there other c) = ap suc (Counted-length c)

-- One more sighting changes no coordinate and no name.
pub Counted-lookup :
    {name : List ℕ} {es es' : List Entry}
    → Counted name es es'
    → (ident : List ℕ) → lookup_entry ident es' ≡ lookup_entry ident es
unfolding lookup_entry
Counted-lookup (here same) ident = refl
Counted-lookup (there other c) ident = ground (arith, Counted-lookup c ident)

pub Counted-found :
    {name : List ℕ} {es es' : List Entry} → Counted name es es' → lookup_entry name es ≢ none
unfolding lookup_entry
Counted-found (here same) = λ k. ground (arith, same, k)
Counted-found (there other c) = λ k. ground (arith, other, Counted-found c, k)

-- A name that is not counted is not in the cache.
pub count_sighting-none :
    (name : List ℕ) (es : List Entry) → count_sighting name es ≡ none → lookup_entry name es ≡ none
unfolding count_sighting lookup_entry
count_sighting-none name [] h = refl
count_sighting-none name (e ∷ es) h = ground (arith, count_sighting-none name es)

pub lookup_entry-append :
    (ident : List ℕ) (es : List Entry) (e : Entry)
    → lookup_entry ident (es ++ (e ∷ [])) ≡ elim (lookup_entry ident es) [
      | some c ↦ some c
      | none ↦ if same_string e.ident ident then some (e.lat, e.lon) else none
    ]
unfolding lookup_entry
lookup_entry-append ident [] e = refl
lookup_entry-append ident (e' ∷ es) e = ground (arith, lookup_entry-append ident es e)

pub take-short : (n : ℕ) (xs : List ℕ) → length xs ≤ n → take n xs ≡ xs
take-short zero [] h = refl
take-short zero (x ∷ xs) h = absurd (omega arith)
take-short (suc n) [] h = refl
take-short (suc n) (x ∷ xs) h = ap (λ k. x ∷ k) (take-short n xs (omega arith))

-- After adding a name of one to five bytes, a lookup finds what it found before; what it did not
-- find it finds now if it asks for that name and the cache had room, with the coordinates added.
pub cache_add_locked-lookup :
    (name ident : List ℕ) (lat lon : ℤ) (l : Learned)
    → 0 < length name
    → length name ≤ 5
    → learned_wp_lookup ident (cache_add_locked name lat lon l) ≡ elim (learned_wp_lookup ident l) [
      | some c ↦ some c
      | none ↦
          if ltb (length l.cache) learned_wp_max && same_string name ident
          then some (lat, lon)
          else none
    ]
unfolding cache_add_locked learned_wp_lookup
cache_add_locked-lookup name ident lat lon l some_name fits =
    let no_name : same_string name ident ≡ true → length ident ≢ 0 =
      λ k. subst (λ n. length n ≢ 0) (same_string→≡ name ident k) (λ z. omega arith) in
    elim (Option-cases (count_sighting name l.cache)) [
      | inr (es, found) ↦
          let c = count_sighting-Counted name l.cache es found in
          let kept : lookup_entry ident es ≡ lookup_entry ident l.cache = Counted-lookup c ident in
          let hit : same_string name ident ≡ true → lookup_entry ident l.cache ≢ none = λ k.
            subst (λ n. lookup_entry n l.cache ≢ none) (same_string→≡ name ident k)
              (Counted-found c) in
          ground (arith, found, kept, hit, no_name)
      | inl missing ↦
          let new : same_string (take 5 name) ident ≡ same_string name ident =
            ap (λ n. same_string n ident) (take-short 5 name fits) in
          let gone : same_string name ident ≡ true → lookup_entry ident l.cache ≡ none = λ k.
            subst (λ n. lookup_entry n l.cache ≡ none) (same_string→≡ name ident k)
              (count_sighting-none name l.cache missing) in
          let appended = lookup_entry-append ident l.cache (new_entry name lat lon) in
          ground (arith, missing, new, gone, appended, no_name)
    ]
