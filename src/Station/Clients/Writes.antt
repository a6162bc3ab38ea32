-- ===== src/Station/Clients/Writes.antt =====
-- What a run of writes leaves behind: the calls that are made, and the connection that is dropped.
use inmarsat_sniffer.Base.{
  ℕ, zero, suc, ◌+◌, ◌-◌, ◌≤◌, ◌<◌, ◌==◌, ◌≡◌, ◌≢◌, refl, sym, ap, ◌∙◌, subst, arith, ◌⊎◌, inl, inr,
  true, false, List, [], ◌∷◌, ◌++◌, none, length, at, Bool-cases, ℕ_discrete, if◌then◌else◌,
}
use mathlib.Core.List.{append_assoc, append-nil}
use inmarsat_sniffer.Station.Clients.Inv.{length-swap_remove, at-swap_remove}
use inmarsat_sniffer.Station.Clients.{Outcome, is_failed, Connections, drop_client}

-- The writes to the `n` connections from place `i` on, in order.
abbrev pub writes : (ℕ → Outcome) → List ℕ → ℕ → ℕ → List (ℕ × Outcome)
writes write clients i zero = []
writes write clients i (suc n) =
    (at clients i, write (at clients i)) ∷ writes write clients (i + 1) n

-- No write from connection `i` on fails, and nothing but the log changes.
pub record AllWritten (write : ℕ → Outcome) (s : Connections) (i : ℕ) (s' : Connections)
    : Type 0 where
  pub succeeded : (j : ℕ) → i ≤ j → j < length s.clients → write (at s.clients j) ≢ Outcome.failed
  pub logged : s'.written ≡ s.written ++ writes write s.clients i (length s.clients - i)
  pub clients : s'.clients ≡ s.clients
  pub bs_client_fd : s'.bs_client_fd ≡ s.bs_client_fd
  pub closed : s'.closed ≡ s.closed

-- As client there is no connection any more. As server there is one connection less: the last one stands
-- in the place `k`, unless that was its own place, and all others stand where they were.
abbrev pub IsDropped : Connections → ℕ → Connections → Type 0
IsDropped s k s' =
    ((s.push ≡ true) × (s'.clients ≡ []) × (s'.bs_client_fd ≡ none))
    ⊎ ((s.push ≡ false)
        × (s'.bs_client_fd ≡ s.bs_client_fd)
        × (length s'.clients + 1 ≡ length s.clients)
        × ((j : ℕ)
            → j < length s'.clients
            → at s'.clients j
              ≡ (if k == j then at s.clients (length s.clients - 1) else at s.clients j)))

-- The first write that fails is that to connection `k`, which is closed and dropped.
pub record FailedAt (write : ℕ → Outcome) (s : Connections) (i k : ℕ) (s' : Connections)
    : Type 0 where
  pub after : i ≤ k
  pub before : k < length s.clients
  pub broken : write (at s.clients k) ≡ Outcome.failed
  pub succeeded : (j : ℕ) → i ≤ j → j < k → write (at s.clients j) ≢ Outcome.failed
  pub logged : s'.written ≡ s.written ++ writes write s.clients i (k - i + 1)
  pub dropped : IsDropped s k s'
  pub closed : s'.closed ≡ s.closed ++ (at s.clients k ∷ [])

abbrev pub IsWritten : (ℕ → Outcome) → Connections → ℕ → Connections → Type 0
IsWritten write s i s' = AllWritten write s i s' ⊎ ((k : ℕ) × FailedAt write s i k s')

pub is_failed-eq : (r : Outcome) → is_failed r ≡ true → r ≡ Outcome.failed
unfolding is_failed
is_failed-eq (Outcome.sent n) e = cc e
is_failed-eq Outcome.would_block e = cc e
is_failed-eq Outcome.failed e = refl

pub is_failed-ne : (r : Outcome) → is_failed r ≡ false → r ≢ Outcome.failed
unfolding is_failed
is_failed-ne r e h = cc (e, ap is_failed h)

-- One round more in front.
pub from_here :
    (write : ℕ → Outcome) (s : Connections) (i : ℕ)
    → write (at s.clients i) ≢ Outcome.failed
    → (P : ℕ → Type 0) → ((j : ℕ) → i + 1 ≤ j → P j → write (at s.clients j) ≢ Outcome.failed)
    → (j : ℕ) → i ≤ j
    → P j
    → write (at s.clients j) ≢ Outcome.failed
from_here write s i here P later j h p = elim (ℕ_discrete i j) [
  | yes e ↦ subst (λ k. write (at s.clients k) ≢ Outcome.failed) e here
  | no ne ↦ later j (omega (arith, ne)) p
]

pub logged_more :
    (write : ℕ → Outcome) (s : Connections) (i n m : ℕ) (now : List (ℕ × Outcome))
    → m ≡ n + 1
    → now
      ≡ (s.written ++ ((at s.clients i, write (at s.clients i)) ∷ []))
        ++ writes write s.clients (i + 1) n
    → now ≡ s.written ++ writes write s.clients i m
logged_more write s i n m now e h =
    let all : suc n ≡ m = omega (arith, e) in
    let here = ((at s.clients i, write (at s.clients i)) ∷ []) in
    h
    ∙ append_assoc s.written here (writes write s.clients (i + 1) n)
    ∙ ap (λ k. s.written ++ writes write s.clients i k) all

pub logged_none :
    (write : ℕ → Outcome) (s : Connections) (i n : ℕ)
    → n ≡ 0
    → s.written ≡ s.written ++ writes write s.clients i n
logged_none write s i n e =
    sym (append-nil s.written) ∙ ap (λ k. s.written ++ writes write s.clients i k) (sym e)

-- What dropping a connection does to the logs.
pub drop_client-logs :
    (s : Connections) (k : ℕ)
    → ((drop_client s k).written ≡ s.written)
      × ((drop_client s k).closed ≡ s.closed ++ (at s.clients k ∷ []))
unfolding drop_client
drop_client-logs s k = elim (Bool-cases s.push) [
  | inl push ↦ (rw push refl, rw push refl)
  | inr serve ↦ (rw serve refl, rw serve refl)
]

pub drop_client-IsDropped :
    (s : Connections) (k : ℕ) → k < length s.clients → IsDropped s k (drop_client s k)
unfolding drop_client
drop_client-IsDropped s k h = elim (Bool-cases s.push) [
  | inl push ↦ inl (push, rw push refl, rw push refl)
  | inr serve ↦
      let len = length-swap_remove s.clients k in
      inr (
        serve,
        rw serve refl,
        rw serve (omega (arith, len, h)),
        rw serve (λ j lt. at-swap_remove s.clients k j h (omega (arith, len, lt))),
      )
]
