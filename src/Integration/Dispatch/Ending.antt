-- ===== src/Integration/Dispatch/Ending.antt =====
-- How the stream of `process` in to_amplifier.rs comes to its end.
use axelar_relayer_core.Base.{◌≡◌, refl, true, List, [], ◌∷◌, Result, ok}
use axelar_relayer_core.Integration.ToAmplifier.{AmplifierCommand}
use axelar_relayer_core.Integration.Dispatch.{
  Dispatch, on_command, on_joined, Step, receive, join, Steps, here, next, IsEnded,
}

module _ {Events Q F J : Type 0} (build_request : Events → Result F Q) where
  abbrev pub Ends : Dispatch Events Q F J → Type 0
  Ends u = (v : Dispatch Events Q F J) × Steps build_request u v × IsEnded build_request v

  Steps-first :
      {u v w : Dispatch Events Q F J}
      → Step build_request u v
      → Steps build_request v w
      → Steps build_request u w
  Steps-first st here = next here st
  Steps-first st (next r st') = next (Steps-first st r) st'

  Ends-step : (u v : Dispatch Events Q F J) → Step build_request u v → Ends v → Ends u
  Ends-step u v st (w, r, over) = (w, Steps-first st r, over)

  joins_all :
      (qs : List Q) (u : Dispatch Events Q F J)
      → u.receiver ≡ []
      → u.closed ≡ true
      → u.join_set ≡ qs
      → Ends u
  unfolding on_joined
  joins_all [] u e e' e'' = (u, here, (e, e', e''))
  joins_all (q ∷ qs) u e e' e'' =
      let v = on_joined build_request qs (ok (ok tt)) u in
      Ends-step u v (join [] qs q (ok (ok tt)) e e'' refl) (joins_all qs v e e' refl)

  -- Once the senders are gone the stream can come to its end, whatever is left in the channel
  -- and in the join set.
  pub closed_stream-Ends :
      (cs : List (AmplifierCommand Events)) (u : Dispatch Events Q F J)
      → u.receiver ≡ cs
      → u.closed ≡ true
      → Ends u
  unfolding on_command
  closed_stream-Ends [] u e e' = joins_all u.join_set u e e' refl
  closed_stream-Ends (c ∷ cs) u e e' =
      let v = on_command build_request c cs u in
      Ends-step u v (receive c cs e refl) (closed_stream-Ends cs v refl e')
