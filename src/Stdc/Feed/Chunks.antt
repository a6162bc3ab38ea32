-- ===== src/Stdc/Feed/Chunks.antt =====
-- How the soft bits are split over the calls of `stdc_decoder_feed`.
use inmarsat_sniffer.Base.{ℕ, ◌≡◌, refl, Option, none, some, List, [], ◌∷◌, ◌++◌}
use inmarsat_sniffer.Base.Int.{ℤ}
use inmarsat_sniffer.Stdc.Types.{Env, Decoder}
use inmarsat_sniffer.Stdc.Feed.{feed_bit, stdc_decoder_feed}

module _ (depth : ℕ) (env : Env) where
  -- Feed in a second call, where the first has come back.
  abbrev pub then_feed : List ℤ → Option Decoder → Option Decoder
  then_feed ys none = none
  then_feed ys (some d) = stdc_decoder_feed depth env d ys

  -- Feeding one run of soft bits is feeding any first part of it in one call and the rest in another:
  -- the messages and the state do not depend on how the demodulator cuts its output.
  pub stdc_decoder_feed-append :
      (xs ys : List ℤ) (d : Decoder)
      → stdc_decoder_feed depth env d (xs ++ ys) ≡ then_feed ys (stdc_decoder_feed depth env d xs)
  unfolding stdc_decoder_feed
  stdc_decoder_feed-append [] ys d = refl
  stdc_decoder_feed-append (x ∷ xs) ys d =
      go (feed_bit depth env d x) (λ d'. stdc_decoder_feed-append xs ys d')
    where
      go :
          (r : Option Decoder)
          → ((d' : Decoder)
              → stdc_decoder_feed depth env d' (xs ++ ys)
                ≡ then_feed ys (stdc_decoder_feed depth env d' xs))
          → (elim r as (λ x'. Option Decoder) [
            | none ↦ none
            | some d' ↦ stdc_decoder_feed depth env d' (xs ++ ys)
          ])
            ≡ then_feed ys (elim r as (λ x'. Option Decoder) [
              | none ↦ none
              | some d' ↦ stdc_decoder_feed depth env d' xs
            ])
      go none rest = refl
      go (some d') rest = rest d'
