-- ===== src/Integration/Dispatch/Completion.antt =====
-- What has become of the commands when the stream of `process` in to_amplifier.rs ends.
use mathlib.Core.List.{Perm, append_assoc, append-nil}
use mathlib.Core.List.Perm
use axelar_relayer_core.Base.{
  ◌≡◌, refl, sym, ap, ◌∙◌, subst, false, List, [], ◌∷◌, ◌++◌, Result, ok, err, move_out, arith,
  Result-cases, inl, inr,
}
use axelar_relayer_core.Integration.ToAmplifier.{AmplifierCommand, publish_events, internal}
use axelar_relayer_core.Integration.Dispatch.{
  Dispatch, Joined, task_panicked, task_failed, report_result, on_command, on_joined, Step, send,
  drop_senders, receive, join, Steps, here, next, IsEnded, sent, joined, built, unbuilt,
  failed_joins, requests, sent_by, joined_by,
}

module _ {Events Q F : Type 0} (build_request : Events → Result F Q) where
  built-ok :
      (events : Events) (cs : List (AmplifierCommand Events)) (q : Q)
      → build_request events ≡ ok q
      → built build_request (publish_events events ∷ cs) ≡ q ∷ built build_request cs
  built-ok events cs q good = ground (arith, good)

  built-err :
      (events : Events) (cs : List (AmplifierCommand Events)) (e : F)
      → build_request events ≡ err e
      → built build_request (publish_events events ∷ cs) ≡ built build_request cs
  built-err events cs e bad = ground (arith, bad)

  built-append :
      (xs ys : List (AmplifierCommand Events))
      → built build_request (xs ++ ys) ≡ built build_request xs ++ built build_request ys
  built-append [] ys = refl
  built-append (publish_events events ∷ xs) ys = elim (Result-cases (build_request events)) [
    | inl (q, good) ↦ ground (arith, good, built-append xs ys)
    | inr (e, bad) ↦ ground (arith, bad, built-append xs ys)
  ]

  unbuilt-append :
      {J : Type 0} (xs ys : List (AmplifierCommand Events))
      → unbuilt build_request {J = J} (xs ++ ys)
        ≡ unbuilt build_request xs ++ unbuilt build_request ys
  unbuilt-append [] ys = refl
  unbuilt-append {J = J} (publish_events events ∷ xs) ys =
      elim (Result-cases (build_request events)) [
        | inl (q, good) ↦ ground (arith, good, unbuilt-append {J = J} xs ys)
        | inr (e, bad) ↦ ground (arith, bad, unbuilt-append {J = J} xs ys)
      ]

  unbuilt-ok :
      {J : Type 0} (events : Events) (cs : List (AmplifierCommand Events)) (q : Q)
      → build_request events ≡ ok q
      → unbuilt build_request {J = J} (publish_events events ∷ cs) ≡ unbuilt build_request cs
  unbuilt-ok events cs q good = ground (arith, good)

  unbuilt-err :
      {J : Type 0} (events : Events) (cs : List (AmplifierCommand Events)) (e : F)
      → build_request events ≡ err e
      → unbuilt build_request {J = J} (publish_events events ∷ cs)
        ≡ task_failed e ∷ unbuilt build_request cs
  unbuilt-err events cs e bad = ground (arith, bad)

module _ {Q F J : Type 0} where
  requests-append : (xs ys : List (Joined Q F J)) → requests (xs ++ ys) ≡ requests xs ++ requests ys
  requests-append [] ys = refl
  requests-append ((q, res) ∷ xs) ys = ap (λ l. q ∷ l) (requests-append xs ys)

  failed_joins-append :
      (xs ys : List (Joined Q F J)) → failed_joins (xs ++ ys) ≡ failed_joins xs ++ failed_joins ys
  failed_joins-append [] ys = refl
  failed_joins-append ((q, err panic) ∷ xs) ys =
      ap (λ l. task_panicked panic ∷ l) (failed_joins-append xs ys)
  failed_joins-append ((q, ok (err e)) ∷ xs) ys =
      ap (λ l. task_failed e ∷ l) (failed_joins-append xs ys)
  failed_joins-append ((q, ok (ok u)) ∷ xs) ys = failed_joins-append xs ys

  report_result_lem :
      (q : Q) (res : Result J (Result F (Unit {0})))
      → report_result res ≡ failed_joins ((q, res) ∷ [])
  unfolding report_result
  report_result_lem q (err panic) = refl
  report_result_lem q (ok (err e)) = refl
  report_result_lem q (ok (ok u)) = refl

swap_end : {A : Type 0} (a b c : List A) → Perm ((a ++ b) ++ c) ((a ++ c) ++ b)
swap_end a b c =
    subst (λ l. Perm l ((a ++ c) ++ b)) (simp (append_assoc, append-nil))
      (subst (λ l. Perm ((a ++ b) ++ ((c ++ []) ++ [])) l) (simp (append_assoc, append-nil))
        (move_out a b c [] []))

module _ {Events Q F J : Type 0} (build_request : Events → Result F Q) where
  -- The accounts of a run: the commands sent so far, the requests joined, and the state reached.
  Accounts : List (AmplifierCommand Events) → List (Joined Q F J) → Dispatch Events Q F J → Type 0
  Accounts cs js u =
      Perm (requests js ++ (u.join_set ++ built build_request u.receiver)) (built build_request cs)
      × Perm (u.logged ++ unbuilt build_request u.receiver)
          (unbuilt build_request cs ++ failed_joins js)

  received_ok :
      (events : Events) (more : List (AmplifierCommand Events)) (u : Dispatch Events Q F J) (q : Q)
      → build_request events ≡ ok q
      → on_command build_request (publish_events events) more u
        ≡ record u { receiver = more; join_set = u.join_set ++ q ∷ []; logged = u.logged ++ [] }
  unfolding on_command internal report_result
  received_ok events more u q good = ground (arith, good)

  received_err :
      (events : Events) (more : List (AmplifierCommand Events)) (u : Dispatch Events Q F J) (e : F)
      → build_request events ≡ err e
      → on_command build_request (publish_events events) more u
        ≡ record u { receiver = more; logged = u.logged ++ task_failed e ∷ [] }
  unfolding on_command internal report_result
  received_err events more u e bad = ground (arith, bad)

  received-Accounts :
      (cs : List (AmplifierCommand Events)) (js : List (Joined Q F J)) (u : Dispatch Events Q F J)
      (command : AmplifierCommand Events) (more : List (AmplifierCommand Events))
      → Accounts cs js (record u { receiver = command ∷ more })
      → Accounts cs js (on_command build_request command more u)
  unfolding Accounts on_command internal report_result
  received-Accounts cs js u (publish_events events) more (perm, counted) =
      elim (Result-cases (build_request events)) [
        | inl (q, good) ↦ subst (Accounts cs js) (sym (received_ok events more u q good)) (
          subst (λ l. Perm (requests js ++ l) (built build_request cs))
              (ap (λ l. u.join_set ++ l) (built-ok build_request events more q good)
                ∙ sym (append_assoc u.join_set (q ∷ []) (built build_request more)))
              perm,
          subst (λ l. Perm l (unbuilt build_request cs ++ failed_joins js))
              (ap (λ l. u.logged ++ l) (unbuilt-ok build_request events more q good)
                ∙ sym (append_assoc u.logged [] (unbuilt build_request more)))
              counted,
        )
        | inr (e, bad) ↦ subst (Accounts cs js) (sym (received_err events more u e bad)) (
          subst (λ l. Perm (requests js ++ (u.join_set ++ l)) (built build_request cs))
              (built-err build_request events more e bad) perm,
          subst (λ l. Perm l (unbuilt build_request cs ++ failed_joins js))
              (ap (λ l. u.logged ++ l) (unbuilt-err build_request events more e bad)
                ∙ sym (append_assoc u.logged (task_failed e ∷ []) (unbuilt build_request more)))
              counted,
        )
      ]

  joined_logged :
      (cs : List (AmplifierCommand Events)) (js : List (Joined Q F J)) (u : Dispatch Events Q F J)
      (j : Joined Q F J)
      → Perm
          (u.logged ++ unbuilt build_request u.receiver)
          (unbuilt build_request cs ++ failed_joins js)
      → Perm
          ((u.logged ++ report_result j.1) ++ unbuilt build_request u.receiver)
          (unbuilt build_request cs ++ failed_joins (js ++ j ∷ []))
  joined_logged cs js u (request, res) h =
      let x = failed_joins ((request, res) ∷ []) in
      let y = unbuilt build_request cs ++ failed_joins (js ++ (request, res) ∷ []) in
      subst (λ r. Perm ((u.logged ++ r) ++ unbuilt build_request u.receiver) y)
        (sym (report_result_lem request res))
        (subst (λ l. Perm ((u.logged ++ x) ++ unbuilt build_request u.receiver) l)
          (append_assoc (unbuilt build_request cs) (failed_joins js) x
            ∙ ap (λ l. unbuilt build_request cs ++ l)
                (sym (failed_joins-append js ((request, res) ∷ []))))
          (Perm.trans (swap_end u.logged x (unbuilt build_request u.receiver))
            (Perm.append_right x h)))

  sent_logged :
      (cs : List (AmplifierCommand Events)) (js : List (Joined Q F J)) (u : Dispatch Events Q F J)
      (command : AmplifierCommand Events)
      → Perm
          (u.logged ++ unbuilt build_request u.receiver)
          (unbuilt build_request cs ++ failed_joins js)
      → Perm
          (u.logged ++ unbuilt build_request (u.receiver ++ command ∷ []))
          (unbuilt build_request (cs ++ command ∷ []) ++ failed_joins js)
  sent_logged cs js u command h =
      let x = unbuilt build_request (command ∷ []) in
      let y = unbuilt build_request (cs ++ command ∷ []) ++ failed_joins js in
      subst (λ l. Perm l y)
        (append_assoc u.logged (unbuilt build_request u.receiver) x
          ∙ ap (λ l. u.logged ++ l) (sym (unbuilt-append build_request u.receiver (command ∷ []))))
        (subst (λ l. Perm ((u.logged ++ unbuilt build_request u.receiver) ++ x) l)
          (ap (λ l. l ++ failed_joins js) (sym (unbuilt-append build_request cs (command ∷ []))))
          (Perm.trans (Perm.append_right x h)
            (swap_end (unbuilt build_request cs) (failed_joins js) x)))

  joined-Accounts :
      (cs : List (AmplifierCommand Events)) (js : List (Joined Q F J)) (u : Dispatch Events Q F J)
      (before after : List Q) (request : Q) (res : Result J (Result F (Unit {0})))
      → Accounts cs js (record u { join_set = before ++ request ∷ after })
      → Accounts cs (js ++ (request, res) ∷ []) (on_joined build_request (before ++ after) res u)
  unfolding Accounts on_joined
  joined-Accounts cs js u before after request res (perm, counted) = (
    subst
        (λ l.
          Perm (l ++ ((before ++ after) ++ built build_request u.receiver))
            (built build_request cs))
        (sym (requests-append js ((request, res) ∷ [])))
        (Perm.trans
          (move_out (requests js) (request ∷ []) before after (built build_request u.receiver))
          perm),
    joined_logged cs js u (request, res) counted,
  )

  sent-Accounts :
      (cs : List (AmplifierCommand Events)) (js : List (Joined Q F J)) (u : Dispatch Events Q F J)
      (command : AmplifierCommand Events)
      → Accounts cs js u
      → Accounts (cs ++ command ∷ []) js (record u { receiver = u.receiver ++ command ∷ [] })
  unfolding Accounts
  sent-Accounts cs js u command (perm, counted) = (
    subst (λ l. Perm l (built build_request (cs ++ command ∷ [])))
        (simp (append_assoc, built-append build_request u.receiver (command ∷ [])))
        (subst
          (λ l.
            Perm
              ((requests js ++ (u.join_set ++ built build_request u.receiver))
                ++ built build_request (command ∷ []))
              l)
          (sym (built-append build_request cs (command ∷ [])))
          (Perm.append_right (built build_request (command ∷ [])) perm)),
    sent_logged cs js u command counted,
  )

  Step-Accounts :
      (cs : List (AmplifierCommand Events)) (js : List (Joined Q F J)) (u v : Dispatch Events Q F J)
      (st : Step build_request u v)
      → Accounts cs js u
      → Accounts (cs ++ sent_by build_request st) (js ++ joined_by build_request st) v
  Step-Accounts cs js u v (send command e e') h =
      rw (append-nil js, e') (sent-Accounts cs js u command h)
  Step-Accounts cs js u v (drop_senders e) h =
      rw (append-nil cs, append-nil js, e) (unfold Accounts in h)
  Step-Accounts cs js u v (receive command more e e') h =
      rw (append-nil cs, append-nil js, e')
        (received-Accounts cs js u command more
          (subst (λ l. Accounts cs js (record u { receiver = l })) e h))
  Step-Accounts cs js u v (join before after request res e e' e'') h =
      rw (append-nil cs, e'')
        (joined-Accounts cs js u before after request res
          (subst (λ l. Accounts cs js (record u { join_set = l })) e' h))

  -- `process` at its start.
  abbrev pub fresh : Dispatch Events Q F J
  fresh = record { receiver = []; closed = false; join_set = []; logged = [] }

  Steps-Accounts :
      {v : Dispatch Events Q F J} (r : Steps build_request fresh v)
      → Accounts (sent build_request r) (joined build_request r) v
  Steps-Accounts here = unfold Accounts in (Perm.refl [], Perm.refl [])
  Steps-Accounts (next {v = v} {w = w} r st) =
      Step-Accounts (sent build_request r) (joined build_request r) v w st (Steps-Accounts r)

  -- When the stream of `process` ends, the requests that have been joined are, in some order, those
  -- built from the commands that have been sent, one for each; and what has been logged is, in some
  -- order, the error of each command whose request could not be built, the panic or cancellation of
  -- each request that ended by one, and the error of each request that failed, once each.
  pub stream_completes :
      (v : Dispatch Events Q F J) (r : Steps build_request fresh v)
      → IsEnded build_request v
      → Perm (requests (joined build_request r)) (built build_request (sent build_request r))
        × Perm v.logged
            (unbuilt build_request (sent build_request r) ++ failed_joins (joined build_request r))
  unfolding Accounts
  stream_completes v r (empty, closed, idle) =
      let (perm, counted) = Steps-Accounts r in
      (
        subst (λ l. Perm l (built build_request (sent build_request r)))
            (append-nil (requests (joined build_request r)))
            (subst
              (λ l.
                Perm (requests (joined build_request r) ++ l)
                  (built build_request (sent build_request r)))
              (rw (idle, empty) refl) perm),
        subst
            (λ l. Perm l (
              unbuilt build_request (sent build_request r)
              ++ failed_joins (joined build_request r)))
            (rw (empty, append-nil v.logged) refl) counted,
      )
