-- ===== src/Station/Clients/Written.antt =====
-- A line is written to the connections in order, up to the first that fails, which alone is dropped.
use inmarsat_sniffer.Base.{
  ℕ, zero, suc, ◌+◌, ◌-◌, ◌<◌, ltb, ◌≡◌, ◌≢◌, refl, sym, ap, ◌∙◌, subst, arith, inl, inr, false, [],
  ◌∷◌, ◌++◌, length, at, at_ext, Bool-cases, dec_lt, ltb→lt,
}
use inmarsat_sniffer.Station.Clients.Inv.{
  IsOpen, length-swap_remove, at-swap_remove, swap_remove-IsOpen,
}
use inmarsat_sniffer.Station.Clients.{
  Outcome, is_failed, Connections, swap_remove, write_loop, write_all,
}
use inmarsat_sniffer.Station.Clients.Writes.{
  writes, IsDropped, FailedAt, IsWritten, is_failed-eq, is_failed-ne, from_here, logged_more,
  logged_none, drop_client-logs, drop_client-IsDropped,
}

write_loop-IsWritten :
    (fuel : ℕ) (write : ℕ → Outcome) (s : Connections) (i : ℕ)
    → length s.clients - i < fuel
    → IsWritten write s i (write_loop fuel write s i)
unfolding write_loop
write_loop-IsWritten zero write s i h = absurd (omega arith)
write_loop-IsWritten (suc fuel) write s i h = elim (Bool-cases (ltb i (length s.clients))) [
  | inr past ↦ rw past (
      inl (record {
        succeeded = λ j lo hi. ground (arith, past);
        logged = logged_none write s i (length s.clients - i) (ground (arith, past));
        clients = refl;
        bs_client_fd = refl;
        closed = refl;
      }))
  | inl more ↦
      let lt = ltb→lt i (length s.clients) more in
      let r = write (at s.clients i) in
      let next : Connections = record s {
        written = s.written ++ ((at s.clients i, write (at s.clients i)) ∷ []);
      } in
      let last : 1 ≡ i - i + 1 = omega arith in
      elim (Bool-cases (is_failed r)) [
        | inl bad ↦
            rw (more, bad)
              (inr (
                i,
                record {
                  after = omega arith;
                  before = lt;
                  broken = is_failed-eq r bad;
                  succeeded = λ j lo hi. absurd (omega arith);
                  logged =
                      (drop_client-logs next i).0
                      ∙ ap (λ n. s.written ++ writes write s.clients i n) last;
                  dropped = drop_client-IsDropped next i lt;
                  closed = (drop_client-logs next i).1;
                },
              ))
        | inr good ↦
            let here = is_failed-ne r good in
            rw (more, good)
              (elim (write_loop-IsWritten fuel write next (i + 1) (omega (arith, lt))) [
                | inl r ↦ inl (record {
                  succeeded = from_here write s i here (λ j. j < length s.clients) r.succeeded;
                  logged =
                      logged_more write s i (length s.clients - (i + 1)) (length s.clients - i) _
                        (omega (arith, lt)) r.logged;
                  clients = r.clients;
                  bs_client_fd = r.bs_client_fd;
                  closed = r.closed;
                })
                | inr (k, r) ↦ inr (
                  k,
                  record {
                    after = omega (arith, r.after);
                    before = r.before;
                    broken = r.broken;
                    succeeded = from_here write s i here (λ j. j < k) r.succeeded;
                    logged =
                        logged_more write s i (k - (i + 1) + 1) (k - i + 1) _
                          (omega (arith, r.after)) r.logged;
                    dropped = r.dropped;
                    closed = r.closed;
                  },
                )
              ])
      ]
]

-- A line is written to every connection once, in order, and every connection is kept, whether it takes all
-- of it, a part, or nothing because it would block; or some write fails: then the writes end with the first
-- that fails, and its connection alone is closed and dropped: as client there is no connection left and its
-- descriptor is unset, and as server the last connection moves to its place.
pub write_all-IsWritten :
    (write : ℕ → Outcome) (s : Connections) → IsWritten write s 0 (write_all write s)
unfolding write_all
write_all-IsWritten write s = write_loop-IsWritten (length s.clients + 1) write s 0 (omega arith)

IsDropped-serve :
    (s s' : Connections) (k : ℕ)
    → s.push ≡ false
    → k < length s.clients
    → IsDropped s k s'
    → s'.clients ≡ swap_remove s.clients k
IsDropped-serve s s' k serve h (inl client) = absurd (cc (serve, client.0))
IsDropped-serve s s' k serve h (inr (server, fd, less, moved)) =
    let len = length-swap_remove s.clients k in
    at_ext s'.clients (swap_remove s.clients k) (omega (arith, len, less))
      (λ j lt. moved j lt ∙ sym (at-swap_remove s.clients k j h (omega (arith, less, lt))))

-- As server, where the write to connection `k` fails and none before it does: afterwards no more than 16
-- connections are in the list, none twice, not the one that failed, and every other one still is.
pub write_all-IsOpen :
    (write : ℕ → Outcome) (s : Connections) (k : ℕ)
    → s.push ≡ false
    → IsOpen s.clients
    → k < length s.clients
    → write (at s.clients k) ≡ Outcome.failed
    → ((j : ℕ) → j < k → write (at s.clients j) ≢ Outcome.failed)
    → IsOpen (write_all write s).clients
      × ((j : ℕ)
          → j < length (write_all write s).clients
          → at (write_all write s).clients j ≢ at s.clients k)
      × ((i : ℕ)
          → i < length s.clients
          → i ≢ k
          → (j : ℕ) × (j < length (write_all write s).clients)
            × (at (write_all write s).clients j ≡ at s.clients i))
write_all-IsOpen write s k serve valid h broken kept =
    subst
      (λ c.
        IsOpen c
        × ((j : ℕ) → j < length c → at c j ≢ at s.clients k)
        × ((i : ℕ)
            → i < length s.clients
            → i ≢ k
            → (j : ℕ) × (j < length c) × (at c j ≡ at s.clients i)))
      (sym left) (swap_remove-IsOpen s.clients k valid h)
  where
    first : (k' : ℕ) → FailedAt write s 0 k' (write_all write s) → k' ≡ k
    first k' f = elim (dec_lt k' k) [
      | yes sooner ↦ absurd (kept k' sooner f.broken)
      | no later ↦ elim (dec_lt k k') [
        | yes before ↦ absurd (f.succeeded k (omega arith) before broken)
        | no same ↦ omega (arith, later, same)
      ]
    ]

    left : (write_all write s).clients ≡ swap_remove s.clients k
    left = elim (write_all-IsWritten write s) [
      | inl all ↦ absurd (all.succeeded k (omega arith) h broken)
      | inr (k', f) ↦
          IsDropped-serve s (write_all write s) k serve h
            (subst (λ n. IsDropped s n (write_all write s)) (first k' f) f.dropped)
    ]
