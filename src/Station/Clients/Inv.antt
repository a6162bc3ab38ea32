-- ===== src/Station/Clients/Inv.antt =====
-- Which connections are open: accepting one, and dropping one.
use inmarsat_sniffer.Base.{
  ℕ, zero, suc, ◌-◌, ◌≤◌, ◌<◌, ◌==◌, ◌≡◌, ◌≢◌, refl, sym, ap, ◌∙◌, subst, arith, if◌then◌else◌,
  List, [], ◌∷◌, ◌++◌, length, at, set, take, at-set, at-append, at-append_end, length-append,
  length-set, length-take, dec_lt, ℕ_discrete,
}
use inmarsat_sniffer.Station.Clients.{bs_max_clients, Connections, accept_client, swap_remove}

-- No more connections than the array has room for, and none twice.
pub record IsOpen (clients : List ℕ) : Type 0 where
  pub small : length clients ≤ bs_max_clients
  pub distinct :
      (i j : ℕ) → i < length clients → j < length clients → i ≢ j → at clients i ≢ at clients j

at-take : (n : ℕ) (xs : List ℕ) (i : ℕ) → i < n → at (take n xs) i ≡ at xs i
at-take zero xs i h = absurd (omega arith)
at-take (suc n) [] i h = refl
at-take (suc n) (x ∷ xs) zero h = refl
at-take (suc n) (x ∷ xs) (suc i) h = at-take n xs i (omega arith)

pub length-swap_remove :
    (clients : List ℕ) (i : ℕ) → length (swap_remove clients i) ≡ length clients - 1
unfolding swap_remove
length-swap_remove clients i =
    let last = at clients (length clients - 1) in
    omega (arith, length-take (length clients - 1) (set clients i last), length-set clients i last)

pub at-swap_remove :
    (clients : List ℕ) (i j : ℕ)
    → i < length clients
    → j < length clients - 1
    → at (swap_remove clients i) j
      ≡ (if i == j then at clients (length clients - 1) else at clients j)
unfolding swap_remove
at-swap_remove clients i j h lt =
    let last = at clients (length clients - 1) in
    at-take (length clients - 1) (set clients i last) j lt ∙ at-set clients i j last h

-- Where the connection at place `j` of the shorter list stood.
abbrev came_from : List ℕ → ℕ → ℕ → ℕ
came_from clients i j = if i == j then length clients - 1 else j

at-came_from :
    (clients : List ℕ) (i j : ℕ)
    → i < length clients
    → j < length clients - 1
    → at (swap_remove clients i) j ≡ at clients (came_from clients i j)
at-came_from clients i j h lt = at-swap_remove clients i j h lt ∙ ground arith

came_from_hole : (clients : List ℕ) (i : ℕ) → came_from clients i i ≡ length clients - 1
came_from_hole clients i = ground arith

came_from_kept : (clients : List ℕ) (i k : ℕ) → k ≢ i → came_from clients i k ≡ k
came_from_kept clients i k ne = ground (arith, ne)

came_from_other :
    (clients : List ℕ) (i j : ℕ)
    → i < length clients
    → j < length clients - 1
    → came_from clients i j ≢ i
came_from_other clients i j h lt e = ground (arith, e)

came_from_ne :
    (clients : List ℕ) (i j k : ℕ)
    → i < length clients
    → j < length clients - 1
    → k < length clients - 1
    → j ≢ k
    → came_from clients i j ≢ came_from clients i k
came_from_ne clients i j k h j_lt k_lt ne e = ground (arith, e)

-- What is left without connection `i`: connections as before, without this one.
pub swap_remove-IsOpen :
    (clients : List ℕ) (i : ℕ)
    → IsOpen clients
    → i < length clients
    → IsOpen (swap_remove clients i)
      × ((j : ℕ) → j < length (swap_remove clients i) → at (swap_remove clients i) j ≢ at clients i)
      × ((k : ℕ)
          → k < length clients
          → k ≢ i
          → (j : ℕ) × (j < length (swap_remove clients i))
            × (at (swap_remove clients i) j ≡ at clients k))
swap_remove-IsOpen clients i valid h =
    let len = length-swap_remove clients i in
    let from = came_from clients i in
    let moved = at-came_from clients i in
    let from_lt : (j : ℕ) → j < length clients - 1 → from j < length clients =
      λ j lt. ground (arith, h, lt) in
    (
      record {
        small = omega (arith, len, valid.small);
        distinct = λ j k j_lt k_lt ne e.
            let j_row : j < length clients - 1 = omega (arith, len) in
            let k_row : k < length clients - 1 = omega (arith, len) in
            let apart : from j ≢ from k = λ eq. came_from_ne clients i j k h j_row k_row ne eq in
            valid.distinct (from j) (from k) (from_lt j j_row) (from_lt k k_row) apart
              (sym (moved j h j_row) ∙ e ∙ moved k h k_row);
      },
      λ j lt e.
          let row : j < length clients - 1 = omega (arith, len) in
          valid.distinct (from j) i (from_lt j row) h (came_from_other clients i j h row)
            (sym (moved j h row) ∙ e),
      λ k k_lt ne. elim (ℕ_discrete k (length clients - 1)) [
        | yes last ↦
            let row : i < length clients - 1 = omega (arith, last) in
            (
              i,
              omega (arith, len),
              moved i h row ∙ ap (at clients) (came_from_hole clients i ∙ sym last),
            )
        | no before ↦
            let row : k < length clients - 1 = omega arith in
            (k, omega (arith, len), moved k h row ∙ ap (at clients) (came_from_kept clients i k ne))
      ],
    )

accept_client-room :
    (s : Connections) (fd : ℕ)
    → length s.clients < bs_max_clients
    → (accept_client s fd).clients ≡ s.clients ++ (fd ∷ [])
unfolding accept_client
accept_client-room s fd h = ground (arith, h)

accept_client-full :
    (s : Connections) (fd : ℕ)
    → bs_max_clients ≤ length s.clients
    → (accept_client s fd).clients ≡ s.clients
unfolding accept_client
accept_client-full s fd h = ground (arith, h)

append-IsOpen :
    (clients : List ℕ) (fd : ℕ)
    → IsOpen clients
    → length clients < bs_max_clients
    → ((i : ℕ) → i < length clients → at clients i ≢ fd)
    → IsOpen (clients ++ (fd ∷ []))
append-IsOpen clients fd valid room new =
    let len = length-append clients (fd ∷ []) in
    let old : (i : ℕ) → i < length clients → at (clients ++ (fd ∷ [])) i ≡ at clients i =
      at-append clients (fd ∷ []) in
    let end : (i : ℕ) → i ≡ length clients → at (clients ++ (fd ∷ [])) i ≡ fd =
      at-append_end clients fd in
    record {
      small = omega (arith, len);
      distinct = λ i j i_lt j_lt ne e. elim (dec_lt i (length clients)) [
        | yes i_old ↦ elim (dec_lt j (length clients)) [
          | yes j_old ↦ valid.distinct i j i_old j_old ne (sym (old i i_old) ∙ e ∙ old j j_old)
          | no j_end ↦ new i i_old (sym (old i i_old) ∙ e ∙ end j (omega (arith, len)))
        ]
        | no i_end ↦
            let j_old : j < length clients = omega (arith, len, ne) in
            new j j_old (sym (old j j_old) ∙ sym e ∙ end i (omega (arith, len)))
      ];
    }

-- A new connection is taken while there is room and closed otherwise; either way no more than 16 are
-- open and none is in the list twice.
pub accept_client-IsOpen :
    (s : Connections) (client_fd : ℕ)
    → IsOpen s.clients
    → ((i : ℕ) → i < length s.clients → at s.clients i ≢ client_fd)
    → IsOpen (accept_client s client_fd).clients
accept_client-IsOpen s fd valid new = elim (dec_lt (length s.clients) bs_max_clients) [
  | yes room ↦
      subst IsOpen (sym (accept_client-room s fd room)) (append-IsOpen s.clients fd valid room new)
  | no full ↦ subst IsOpen (sym (accept_client-full s fd (omega arith))) valid
]
