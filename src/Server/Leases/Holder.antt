-- ===== src/Server/Leases/Holder.antt =====
-- vad/server/api/leases.py: calls on an active lease.
use verified_agentic_develop.Prelude.{
  ok_eq, joined, permission_error, ◌+◌, ℕ, String, true, false, not, List, [], ◌∷◌, Option, none,
  some, Result, ok, raise, ◌≡◌, sym, ap, ◌∙◌, inl, inr, eq_iff, Bool-cases, if_true, if_false,
  arith, All,
}
use verified_agentic_develop.Prelude.Action.{
  Keeps, Keeps-bind, Keeps-bind_result, from_result, ◌>>=◌,
}
use verified_agentic_develop.ControlPlane.Events.{ControlPlaneEventStatus}
use verified_agentic_develop.ControlPlane.Leases.{
  expired, seconds, TaskLease, task_lease, is_active, TaskLeaseAcquireRequest,
  TaskLeaseRenewRequest, new_task_lease, TaskLeaseReleaseRequest,
}
use verified_agentic_develop.ControlPlane.Leases
use verified_agentic_develop.Policy.{PolicyDecision}
use verified_agentic_develop.Server.Table.{upsert, lookup-key, lookup-upsert_other}
use verified_agentic_develop.Server.Store.Keeps.{
  load_found, task_lease-ok, find_lease, load-cases, append-Keeps,
}
use verified_agentic_develop.Server.Store.{
  ServerStore, same_id, lease_key, load_task_lease, save_task_lease, load_client_manifest,
}
use verified_agentic_develop.Server.Leases.{
  or_none, Moment, append_event, answer, require_holder, acquire, acquire_over, acquire_new, renew,
  release, expire,
}

refused :
    (row : TaskLease) (client : String)
    → same_id row.client_id client ≡ false
    → require_holder row client
      ≡ raise (permission_error (joined ("task lease is held by " ∷ row.client_id ∷ [])))
unfolding require_holder
refused row client h = if_true _ _ (ap not h)

module _ (t : String) (lease : TaskLease) where
  -- the lease is on the table
  abbrev pub Held : ServerStore → Type 0
  Held s = find_lease t s ≡ some lease

  answer-Keeps :
      (m : Moment) (code : ℕ) (l : TaskLease) (summary : String) (status : ControlPlaneEventStatus)
      (d : PolicyDecision)
      → Keeps Held (answer m code l summary status d)
  unfolding answer append_event
  answer-Keeps m code l summary status d = record {
    at = λ s h.
        (Keeps-bind _ _ (Keeps-bind_result _ _ (λ e _. append-Keeps Held e (λ _ _ x. x)))
            (λ e. record { at = λ _ x. x })).at
          s h;
  }

  save_task_lease-Keeps :
      (l : TaskLease) → same_id l.task_id t ≡ false → Keeps Held (save_task_lease l)
  unfolding save_task_lease load_client_manifest
  save_task_lease-Keeps l h =
      Keeps-bind (load_client_manifest l.client_id)
        (λ manifest s. (ok l, record s { task_leases = upsert same_id lease_key l s.task_leases }))
        (record { at = λ _ x. x })
        (λ _. record {
          at = λ s x. lookup-upsert_other same_id lease_key eq_iff l t s.task_leases h ∙ x;
        })

  -- a lease of another task is written, and the answer given
  write-Keeps :
      (r : Result TaskLease) (m : Moment) (code : ℕ) (summary : String)
      (status : ControlPlaneEventStatus) (d : PolicyDecision)
      → ((l : TaskLease) → r ≡ ok l → same_id l.task_id t ≡ false)
      → Keeps Held (do l ← from_result r; l ← save_task_lease l; answer m code l summary status d)
  write-Keeps r m code summary status d h = Keeps-bind_result r _ (λ l e.
      Keeps-bind _ _ (save_task_lease-Keeps l (h l e))
        (λ l. answer-Keeps m code l summary status d))

  new_task_lease-task :
      (r : TaskLeaseAcquireRequest) (now : ℕ) (l : TaskLease)
      → new_task_lease r now ≡ ok l
      → l.task_id ≡ r.task_id
  unfolding new_task_lease
  new_task_lease-task r now l h =
      ap (λ x. x.task_id)
        (task_lease-ok
          (record {
            task_id = r.task_id;
            run_id = r.run_id;
            client_id = r.client_id;
            role = r.role;
            actor = r.actor;
            acquired_at = now;
            expires_at = now + seconds r.ttl_seconds;
            status = Leases.active;
            release_reason = none;
          })
          l h)

  acquire_new-Keeps :
      (m : Moment) (r : TaskLeaseAcquireRequest)
      → same_id r.task_id t ≡ false
      → Keeps Held (acquire_new m r)
  unfolding acquire_new
  acquire_new-Keeps m r h =
      write-Keeps (new_task_lease r m.now) m 201 _ _ _
        (λ l e. rw (new_task_lease-task r m.now l e) h)

  acquire_over-Keeps :
      (m : Moment) (r : TaskLeaseAcquireRequest) (existing : Option TaskLease)
      → same_id r.task_id t ≡ false
      → Keeps Held (acquire_over m r existing)
  unfolding acquire_over
  acquire_over-Keeps m r none h = acquire_new-Keeps m r h
  acquire_over-Keeps m r (some x) h = elim (Bool-cases (is_active x.status)) [
    | inl y ↦ rw (if_true _ _ y) (answer-Keeps m 409 x _ _ _)
    | inr n ↦ rw (if_false _ _ n) (acquire_new-Keeps m r h)
  ]

  module _ (active : is_active lease.status ≡ true) where
    load_client_manifest-Keeps : (k : String) → Keeps Held (load_client_manifest k)
    unfolding load_client_manifest
    load_client_manifest-Keeps k = record { at = λ _ x. x }

    -- an active lease stays, whoever wants the task
    acquire-Keeps : (m : Moment) (r : TaskLeaseAcquireRequest) → Keeps Held (acquire m r)
    unfolding acquire
    acquire-Keeps m r =
        Keeps-bind (load_client_manifest r.client_id) _ (load_client_manifest-Keeps r.client_id)
          (λ manifest. elim (Bool-cases (same_id r.task_id t)) [
            | inr n ↦
                Keeps-bind (λ s. (or_none (load_task_lease r.task_id s).0, s)) (acquire_over m r)
                  (record { at = λ _ x. x }) (λ existing. acquire_over-Keeps m r existing n)
            | inl y ↦ record {
              at = λ s h.
                  let e : r.task_id ≡ t = (eq_iff r.task_id t).0 y in
                  elim (load_found r.task_id s lease (rw e h)) [
                    | inl v ↦
                        rw (v, acquire_over)
                          (rw (if_true _ _ active) ((answer-Keeps m 409 lease _ _ _).at s h))
                    | inr v ↦ rw v h
                  ];
            }
          ])

    -- what a client that does not hold the lease makes of any lease
    change-Keeps :
        (g : TaskLease → Result TaskLease) (k client : String) (m : Moment) (code : ℕ)
        (summary : String) (status : ControlPlaneEventStatus) (d : PolicyDecision)
        → ((l l' : TaskLease) → g l ≡ ok l' → l'.task_id ≡ l.task_id)
        → same_id lease.client_id client ≡ false
        → Keeps Held (do
          l ← load_task_lease k
          held ← from_result (require_holder l client)
          l ← from_result (g l)
          l ← save_task_lease l
          answer m code l summary status d)
    change-Keeps g k client m code summary status d same other = record {
      at = λ s h. elim (load-cases k s) [
        | inr (e, v) ↦ rw v h
        | inl (row, f, v) ↦ rw v (elim (Bool-cases (same_id row.task_id t)) [
          | inl y ↦
              let e : row.task_id ≡ t = (eq_iff row.task_id t).0 y in
              let e' : row.task_id ≡ k =
                lookup-key same_id lease_key eq_iff k s.task_leases row f in
              let f' : find_lease t s ≡ some row = rw (sym e ∙ e') f in
              let row_eq : lease ≡ row = (let g : some lease ≡ some row = sym h ∙ f' in cc) in
              rw (refused row client (rw (← row_eq) other)) h
          | inr n ↦
              (Keeps-bind_result (require_holder row client) _ (λ held _.
                  write-Keeps (g row) m code summary status d (λ l e. rw (same row l e) n))).at
                s h
        ])
      ];
    }

    renew-Keeps :
        (m : Moment) (k : String) (r : TaskLeaseRenewRequest)
        → same_id lease.client_id r.client_id ≡ false
        → Keeps Held (renew m k r)
    unfolding renew
    renew-Keeps m k r other =
        change-Keeps (λ l. Leases.renew l m.now r.ttl_seconds) k r.client_id m 200 _ _ _
          (unfold Leases.renew in λ l l' h. ground arith) other

    release-Keeps :
        (m : Moment) (k : String) (r : TaskLeaseReleaseRequest)
        → same_id lease.client_id r.client_id ≡ false
        → Keeps Held (release m k r)
    unfolding release
    release-Keeps m k r other =
        change-Keeps (λ l. Leases.release l r.reason) k r.client_id m 200 _ _ _
          (unfold Leases.release in λ l l' h. ground arith) other

  -- an expiry of another task's lease
  expire-Keeps : (m : Moment) (k : String) → same_id k t ≡ false → Keeps Held (expire m k)
  unfolding expire
  expire-Keeps m k other = record {
    at = λ s h. elim (load-cases k s) [
      | inr (e, v) ↦ rw v h
      | inl (row, f, v) ↦
          let e' : row.task_id ≡ k = lookup-key same_id lease_key eq_iff k s.task_leases row f in
          rw v (
            (write-Keeps
                (ok (record row { status = expired; release_reason = some "lease expired" })) m 200
                _ _ _
                (λ l e.
                  (let g : l.task_id ≡ row.task_id = ap (λ x. x.task_id) (ok_eq e) in
                    rw (g ∙ e') other))).at
              s h)
    ];
  }

-- the calls of `TaskLeaseService` that write
pub data LeaseCall : Type 0 where
  acquire_call : TaskLeaseAcquireRequest → LeaseCall
  renew_call : String → TaskLeaseRenewRequest → LeaseCall
  release_call : String → TaskLeaseReleaseRequest → LeaseCall
  expire_call : String → LeaseCall

-- the store after a call
unfoldable pub perform : Moment × LeaseCall → ServerStore → ServerStore
unfolding acquire renew release expire
perform (m, acquire_call r) s = (acquire m r s).1
perform (m, renew_call k r) s = (renew m k r s).1
perform (m, release_call k r) s = (release m k r s).1
perform (m, expire_call k) s = (expire m k s).1

unfoldable pub perform_all : List (Moment × LeaseCall) → ServerStore → ServerStore
unfolding perform
perform_all [] s = s
perform_all (c ∷ cs) s = perform_all cs (perform c s)

-- a call that is no renewal and no release by the lease's holder, and no expiry of its task; `expire`
-- asks for no client
abbrev pub IsBarred : TaskLease → Moment × LeaseCall → Type 0
IsBarred lease (m, acquire_call r) = Unit
IsBarred lease (m, renew_call k r) = same_id lease.client_id r.client_id ≡ false
IsBarred lease (m, release_call k r) = same_id lease.client_id r.client_id ≡ false
IsBarred lease (m, expire_call k) = same_id k lease.task_id ≡ false

perform-Held :
    (t : String) (lease : TaskLease) (call : Moment × LeaseCall) (s : ServerStore)
    → is_active lease.status ≡ true
    → IsBarred lease call
    → find_lease t s ≡ some lease
    → find_lease t (perform call s) ≡ some lease
unfolding perform
perform-Held t lease (m, acquire_call r) s a b h = (acquire-Keeps t lease a m r).at s h
perform-Held t lease (m, renew_call k r) s a b h = (renew-Keeps t lease a m k r b).at s h
perform-Held t lease (m, release_call k r) s a b h = (release-Keeps t lease a m k r b).at s h
perform-Held t lease (m, expire_call k) s a b h =
    let e : lease.task_id ≡ t = lookup-key same_id lease_key eq_iff t s.task_leases lease h in
    (expire-Keeps t lease m k (rw (sym e) b)).at s h

-- An active lease on the table is still there, unchanged, after any sequence of `acquire`, `renew`,
-- `release` and `expire` calls in which every renewal and release comes from another client than the
-- lease's, and every expiry is of another task's lease, whether the calls succeed or raise.
pub perform_all-keeps_lease :
    (t : String) (lease : TaskLease) (calls : List (Moment × LeaseCall)) (s : ServerStore)
    → is_active lease.status ≡ true
    → All (IsBarred lease) calls
    → find_lease t s ≡ some lease
    → find_lease t (perform_all calls s) ≡ some lease
unfolding perform_all
perform_all-keeps_lease t lease [] s a b h = h
perform_all-keeps_lease t lease (c ∷ cs) s a b h =
    perform_all-keeps_lease t lease cs (perform c s) a b.1 (perform-Held t lease c s a b.0 h)
