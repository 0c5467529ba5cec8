-- ===== src/ProjectController/Managing/Deletion.antt =====
-- The deletion of a project: the reclaim policy, and then the finalizer.
use rpc_operator.Prelude.{
  String, ◌≡◌, refl, inl, inr, true, some, Option-cases, Bool-cases, not, List, [], ◌∷◌, Memᴰ, All,
  ◌==◌, eq_iff, arith,
}
use rpc_operator.Effects.{ret, ask, Event, Every}
use rpc_operator.Effects.Rules.{Every-if, Every-map}
use rpc_operator.Controller.Calls.{Answer, ok, err, is_not_found, on_answer, Outcome}
use rpc_operator.Controller.Errors.{is_not_found-kind}
use rpc_operator.Controller.Steps.{Leaves, Leaves-of_ok, require-Every}
use rpc_operator.Project.Types.{NatsSpec}
use rpc_operator.ProjectController.Status.{LiveProject}
use rpc_operator.ProjectController.Managing.{
  ProjectCall, remove_finalizer, list_claims, delete_claim, ProjectReply, ProjectDeps, was_deleted,
  reclaim_policy, delete_claims, cleanup_for_delete, release_project,
}
use rpc_operator.ProjectController.Managing.Promises.{
  ProjectHistory, event, IsClaimGone, IsReclaimed, Discards, SaysGone, Sound,
}

-- any outcome
abbrev pub Ends : ProjectHistory → Outcome → Type 0
Ends h o = Unit

module _ (deps : ProjectDeps) (live : LiveProject) (deletes : live.is_deleting ≡ true) where
  was_deleted-SaysGone :
      (r : Answer (Unit {0})) (u : Unit {0}) → was_deleted r ≡ ok u → SaysGone deps live r
  was_deleted-SaysGone (ok _) u e = tt
  was_deleted-SaysGone (err e) u same = elim (Bool-cases (is_not_found e)) [
    | inl gone ↦ is_not_found-kind e gone
    | inr other ↦ ground (arith, same, other)
  ]

  reclaim_policy_asked :
      (nats : NatsSpec)
      → live.project.spec.nats ≡ some nats
      → nats.storage_reclaim_policy ≡ "Delete"
      → reclaim_policy live.project.spec.nats ≡ "Delete"
  reclaim_policy_asked nats given asks = rw (given, asks) refl

  reclaim_policy-Discards : reclaim_policy live.project.spec.nats ≡ "Delete" → Discards deps live
  reclaim_policy-Discards e = elim (Option-cases live.project.spec.nats) [
    | inl none_given ↦ cc ((eq_iff "Retain" "Delete").1 (rw none_given at e))
    | inr (nats, given) ↦ (nats, given, asks nats (rw given at e))
  ]
    where
      asks :
          (nats : NatsSpec)
          → reclaim_policy (some nats) ≡ "Delete"
          → nats.storage_reclaim_policy ≡ "Delete"
      asks nats e' = elim (Bool-cases (nats.storage_reclaim_policy == "")) [
        | inl empty ↦ cc ((eq_iff "Retain" "Delete").1 (rw empty at e'))
        | inr set ↦ rw set at e'
      ]

  IsClaimGone-later :
      (h : ProjectHistory) (e : Event ProjectCall ProjectReply) (c : String)
      → IsClaimGone deps live h c
      → IsClaimGone deps live (e ∷ h) c
  IsClaimGone-later h e c (r, m, g) = (r, Memᴰ.tail m, g)

  AllGone-later :
      (h : ProjectHistory) (e : Event ProjectCall ProjectReply) (cs : List String)
      → All (IsClaimGone deps live h) cs
      → All (IsClaimGone deps live (e ∷ h)) cs
  AllGone-later h e [] g = tt
  AllGone-later h e (c ∷ cs) (g, gs) = (IsClaimGone-later h e c g, AllGone-later h e cs gs)

  module _ (policy : Discards deps live) (all : List String) where
    -- what is left to do, with the claims that are gone before
    delete_claims-Gone :
        (cs before : List String) (h : ProjectHistory)
        → Memᴰ (event list_claims (ok all)) h
        → ((c : String) → Memᴰ c cs → Memᴰ c all)
        → All (IsClaimGone deps live h) before
        → Every
            (Sound deps live)
            (Leaves (λ h' _.
              Memᴰ (event list_claims (ok all)) h'
              × All (IsClaimGone deps live h') before
              × All (IsClaimGone deps live h') cs))
            h
            (delete_claims cs)
    unfolding delete_claims
    delete_claims-Gone [] before h listed within gone = (listed, gone, tt)
    delete_claims-Gone (c ∷ cs) before h listed within gone = (
      (deletes, policy, all, listed, within c (Memᴰ.head refl)),
      λ r. by_reply r (was_deleted r) refl (λ g.
          delete_claims-Gone cs (c ∷ before) (event (delete_claim c) r ∷ h) (Memᴰ.tail listed)
            (λ c' m. within c' (Memᴰ.tail m))
            (g, AllGone-later h (event (delete_claim c) r) before gone)),
    )
      where
        by_reply :
            (r seen : Answer (Unit {0}))
            → was_deleted r ≡ seen
            → (IsClaimGone deps live (event (delete_claim c) r ∷ h) c
                → Every
                    (Sound deps live)
                    (Leaves (λ h' _.
                      Memᴰ (event list_claims (ok all)) h'
                      × All (IsClaimGone deps live h') (c ∷ before)
                      × All (IsClaimGone deps live h') cs))
                    (event (delete_claim c) r ∷ h)
                    (delete_claims cs))
            → Every
                (Sound deps live)
                (Leaves (λ h' _.
                  Memᴰ (event list_claims (ok all)) h'
                  × All (IsClaimGone deps live h') before
                  × All (IsClaimGone deps live h') (c ∷ cs)))
                (event (delete_claim c) r ∷ h)
                (on_answer seen (λ _. delete_claims cs) (λ e. ret (err e)))
        by_reply r (ok u) same go =
            Every-map (Sound deps live)
              (Leaves (λ h' _.
                Memᴰ (event list_claims (ok all)) h'
                × All (IsClaimGone deps live h') (c ∷ before)
                × All (IsClaimGone deps live h') cs))
              (Leaves (λ h' _.
                Memᴰ (event list_claims (ok all)) h'
                × All (IsClaimGone deps live h') before
                × All (IsClaimGone deps live h') (c ∷ cs)))
              regroup _ (delete_claims cs) (go (r, Memᴰ.head refl, was_deleted-SaysGone r u same))
          where
            regroup :
                (h' : ProjectHistory) (a : Answer (Unit {0}))
                → Leaves
                    (λ h'' (_ : Unit {0}).
                      Memᴰ (event list_claims (ok all)) h''
                      × All (IsClaimGone deps live h'') (c ∷ before)
                      × All (IsClaimGone deps live h'') cs)
                    h'
                    a
                → Leaves
                    (λ h'' (_ : Unit {0}).
                      Memᴰ (event list_claims (ok all)) h''
                      × All (IsClaimGone deps live h'') before
                      × All (IsClaimGone deps live h'') (c ∷ cs))
                    h'
                    a
            regroup h' (ok u) (l, (g, gs), ks) = (l, gs, (g, ks))
            regroup h' (err e) k = tt
        by_reply r (err e) same go = tt

  cleanup_for_delete-Reclaimed :
      (h : ProjectHistory)
      → Every
          (Sound deps live)
          (Leaves (λ h' _. IsReclaimed deps live h'))
          h
          (cleanup_for_delete live.project)
  unfolding cleanup_for_delete
  cleanup_for_delete-Reclaimed h =
      Every-if (Sound deps live) (Leaves (λ h' _. IsReclaimed deps live h')) h
        (not (reclaim_policy live.project.spec.nats == "Delete")) _ _
        (λ keeps. inl (λ (nats, given, asks). ground (
          arith,
          keeps,
          eq_iff (reclaim_policy live.project.spec.nats) "Delete",
          reclaim_policy_asked nats given asks,
        )))
        (λ goes. (
          tt,
          λ r.
              by_list
                (reclaim_policy-Discards
                  (ground (arith, goes, eq_iff (reclaim_policy live.project.spec.nats) "Delete")))
                r,
        ))
    where
      by_list :
          Discards deps live
          → (r : Answer (List String))
          → Every
              (Sound deps live)
              (Leaves (λ h' _. IsReclaimed deps live h'))
              (event list_claims r ∷ h)
              (on_answer r delete_claims (λ e. ret (err e)))
      by_list policy (ok cs) =
          Every-map (Sound deps live) _ (Leaves (λ h' _. IsReclaimed deps live h')) done_with _
            (delete_claims cs)
            (delete_claims-Gone policy cs cs [] (event list_claims (ok cs) ∷ h) (Memᴰ.head refl)
              (λ c m. m) tt)
        where
          done_with :
              (h' : ProjectHistory) (a : Answer (Unit {0}))
              → Leaves
                  (λ h'' (_ : Unit {0}).
                    Memᴰ (event list_claims (ok cs)) h''
                    × Unit {0}
                    × All (IsClaimGone deps live h'') cs)
                  h'
                  a
              → Leaves (λ h'' (_ : Unit {0}). IsReclaimed deps live h'') h' a
          done_with h' (ok u) (l, n, g) = inr (cs, l, g)
          done_with h' (err e) k = tt
      by_list policy (err e) = tt

  pub release_project-Sound :
      (h : ProjectHistory) → Every (Sound deps live) Ends h (release_project live)
  unfolding release_project
  release_project-Sound h =
      Every-if (Sound deps live) Ends h live.has_finalizer _ _
        (λ _.
          require-Every (Sound deps live) (λ h' (_ : Unit {0}). IsReclaimed deps live h') Ends _ h
            (cleanup_for_delete live.project) (λ h' e. tt) (cleanup_for_delete-Reclaimed h)
            (λ h' _ reclaimed.
              require-Every (Sound deps live) (λ h'' (_ : Unit {0}). Unit {0}) Ends _ h'
                (ask remove_finalizer ret) (λ h'' e. tt)
                (
                  (deletes, reclaimed),
                  λ r.
                      Leaves-of_ok (λ (h'' : ProjectHistory) (_ : Unit {0}). Unit {0})
                        (event remove_finalizer r ∷ h') r (λ _ _. tt),
                )
                (λ h'' _ _. tt)))
        (λ _. tt)
