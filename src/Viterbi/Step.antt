-- ===== src/Viterbi/Step.antt =====
-- One time step of the forward pass keeps, for each state, the cheapest edge into it.
use inmarsat_sniffer.Base.{
  ℕ, suc, ◌+◌, ◌*◌, ◌/◌, ◌%◌, ◌^◌, ◌≤◌, ◌<◌, ◌≡◌, refl, ◌⊎◌, inl, inr, List, arith, ltb, leb, ◌==◌,
  at, set, get_or-replicate, length, length-set, length-replicate, Bool-cases, at-set, ==_iff, ◌∙◌,
  sym, subst, ltb→lt, ltb-false→le,
}
use inmarsat_sniffer.Base.Int.{ℤ}
use inmarsat_sniffer.Base.Loops.{for_range, for_range_inv}
use inmarsat_sniffer.Viterbi.{
  viterbi_states, unreached, max_metric, next_state, edge_metric, relax, relax_state, acs,
}
use inmarsat_sniffer.Viterbi.Edges.{IsInt8, edge_metric-le, next_state-lt}

module _ (metric : List ℕ) (s0 s1 : ℤ) where
  -- `entry` names an edge into `n` from a reached state, and `v` is the metric over it.
  pub record IsEdge (n v entry : ℕ) : Type 0 where
    pub from_lt : entry / 2 < viterbi_states
    pub reached : at metric (entry / 2) < unreached
    pub leads : next_state (entry / 2) (entry % 2) ≡ n
    pub value : v ≡ at metric (entry / 2) + edge_metric s0 s1 (entry / 2) (entry % 2)

  -- The new metrics and the row of decisions after the edges with number below `m`, where the edge
  -- out of `s` on `b` has the number `s * 2 + b`.
  pub record Relaxed (m : ℕ) (acc : List ℕ × List ℕ) : Type 0 where
    pub new_length : length acc.0 ≡ viterbi_states
    pub row_length : length acc.1 ≡ viterbi_states
    pub sound :
        (n : ℕ)
        → n < viterbi_states
        → (at acc.0 n ≡ max_metric) ⊎ IsEdge n (at acc.0 n) (at acc.1 n)
    pub complete :
        (s b : ℕ)
        → s < viterbi_states
        → b < 2
        → s * 2 + b < m
        → at metric s < unreached
        → at acc.0 (next_state s b) ≤ at metric s + edge_metric s0 s1 s b

  renumber : {m n : ℕ} {acc : List ℕ × List ℕ} → m ≡ n → Relaxed m acc → Relaxed n acc
  renumber {acc = acc} e r = subst (λ k. Relaxed k acc) e r

  -- The edge out of `s` on `b`.
  own-IsEdge :
      (s b : ℕ)
      → s < viterbi_states
      → b < 2
      → at metric s < unreached
      → IsEdge (next_state s b) (at metric s + edge_metric s0 s1 s b) (s * 2 + b)
  own-IsEdge s b hs hb live =
      let es : (s * 2 + b) / 2 ≡ s = omega arith in
      let eb : (s * 2 + b) % 2 ≡ b = omega arith in
      record { from_lt = rw es hs; reached = rw es live; leads = rw (es, eb); value = rw (es, eb) }

  -- Taking the edge out of `s` on `b` into `n`, where it is cheaper than what `n` has.
  take_edge :
      (s b n pm : ℕ) (new row : List ℕ)
      → s < viterbi_states
      → b < 2
      → n < viterbi_states
      → n ≡ next_state s b
      → pm ≡ at metric s + edge_metric s0 s1 s b
      → at metric s < unreached
      → pm < at new n
      → Relaxed (s * 2 + b) (new, row)
      → Relaxed (s * 2 + suc b) (set new n pm, set row n (s * 2 + b))
  take_edge s b n pm new row hs hb hn en ep live lt r = record {
    new_length = length-set new n pm ∙ r.new_length;
    row_length = length-set row n (s * 2 + b) ∙ r.row_length;
    sound = λ m hm.
        rw (at-set new n m pm (rw r.new_length hn), at-set row n m (s * 2 + b) (rw r.row_length hn))
          (elim (Bool-cases (n == m)) [
            | inl e ↦ rw e (
                inr (
                  subst (λ k. IsEdge k pm (s * 2 + b)) (sym en ∙ (==_iff n m).0 e)
                    (rw ep (own-IsEdge s b hs hb live))))
            | inr e ↦ rw e (r.sound m hm)
          ]);
    complete = λ s' b' hs' hb' h live'.
        ground (arith, at-set new n (next_state s' b') pm (rw r.new_length hn), r.complete s' b');
  }

  -- Passing over it where it is not.
  leave_edge :
      (s b : ℕ) (new row : List ℕ)
      → b < 2
      → at new (next_state s b) ≤ at metric s + edge_metric s0 s1 s b
      → Relaxed (s * 2 + b) (new, row)
      → Relaxed (s * 2 + suc b) (new, row)
  leave_edge s b new row hb le r = record {
    new_length = r.new_length;
    row_length = r.row_length;
    sound = r.sound;
    complete = λ s' b' hs' hb' h live'. ground (arith, r.complete s' b');
  }

  module _ (h0 : IsInt8 s0) (h1 : IsInt8 s1) where
    relax-Relaxed :
        (s b : ℕ) (acc : List ℕ × List ℕ)
        → s < viterbi_states
        → b < 2
        → at metric s < unreached
        → Relaxed (s * 2 + b) acc
        → Relaxed (s * 2 + suc b) (relax metric s0 s1 s b acc)
    unfolding relax
    relax-Relaxed s b (new, row) hs hb live r =
        elim (Bool-cases (ltb pm (at new (next_state s b)))) [
          | inl lt ↦ rw lt (
              take_edge s b (next_state s b) pm new row hs hb (next_state-lt s b hs hb) refl no_wrap
                live (ltb→lt _ _ lt) r)
          | inr ge ↦ rw ge (
              leave_edge s b new row hb
                (subst (λ k. at new (next_state s b) ≤ k) no_wrap (ltb-false→le _ _ ge)) r)
        ]
      where
        pm : ℕ
        pm = (at metric s + edge_metric s0 s1 s b) % 2 ^ 32

        no_wrap : pm ≡ at metric s + edge_metric s0 s1 s b
        no_wrap = omega (arith, edge_metric-le s0 s1 s b h0 h1)

    relax_state-Relaxed :
        (s : ℕ) (acc : List ℕ × List ℕ)
        → s < viterbi_states
        → Relaxed (s * 2) acc
        → Relaxed (suc s * 2) (relax_state metric s0 s1 s acc)
    unfolding relax_state for_range
    relax_state-Relaxed s acc hs r = elim (Bool-cases (leb unreached (at metric s))) [
      | inl dead ↦ rw dead (record {
        new_length = r.new_length;
        row_length = r.row_length;
        sound = r.sound;
        complete = λ s' b' hs' hb' h live. ground (arith, r.complete s' b');
      })
      | inr live ↦ rw live (
          renumber (omega arith) (
            relax-Relaxed s 1 _ hs (omega arith) (ground arith) (
              renumber (omega arith) (
                relax-Relaxed s 0 acc hs (omega arith) (ground arith) (renumber (omega arith) r)))))
    ]

    -- After the step each state has the cheapest edge into it, if any reached state leads there.
    pub acs-Relaxed : Relaxed (viterbi_states * 2) (acs metric s0 s1)
    unfolding acs
    acs-Relaxed =
        for_range_inv (λ s acc. Relaxed (s * 2) acc) (relax_state metric s0 s1) viterbi_states 0
          viterbi_states _ (omega arith) (λ s acc lo hi r. step s acc hi r)
          (record {
            new_length = length-replicate viterbi_states max_metric;
            row_length = length-replicate {A = ℕ} viterbi_states 0;
            sound = λ n hn. inl (get_or-replicate viterbi_states n max_metric 0 hn);
            complete = λ s b hs hb h live. absurd (omega arith);
          })
      where
        step :
            (s : ℕ) (acc : List ℕ × List ℕ)
            → s < viterbi_states
            → Relaxed (s * 2) acc
            → Relaxed ((s + 1) * 2) (relax_state metric s0 s1 s acc)
        step s acc hs r =
            subst (λ m. Relaxed m (relax_state metric s0 s1 s acc)) (omega arith)
              (relax_state-Relaxed s acc hs r)
