-- ===== src/Pool/Release.antt =====
-- What a release does, and one that comes while its resource is still being assigned.
use samples_python.Base.{
  String, Option, none, some, ◌≡◌, refl, inl, inr, ◌⊎◌, arith, if◌then◌else◌, string_eq, get,
  get-set_item, get-del_item, ◌==◌, Option-cases,
}
use samples_python.Pool.{
  AcquireResponse, InternalAcquireRequest, Pending, ResourcePoolWorkflow, released,
  unknown_release_key, release_held, release_known, release_resource, delivered, register,
  finish_assign, assign_resource,
}
use samples_python.Pool.Invariant.{key_of, PendingIsConsistent, IsConsistent}

-- The effect of a release of the resource `r` by its key.
abbrev pub Frees : ResourcePoolWorkflow → ResourcePoolWorkflow → String → String → Type 0
Frees w u key r =
    ((x : String) → get x u.resources ≡ (if x == r then some none else get x w.resources))
    × ((k : String)
        → get k u.release_key_to_resource
          ≡ (if k == key then none else get k w.release_key_to_resource))
    × (u.waiters ≡ w.waiters)

release_held-some :
    (w : ResourcePoolWorkflow) (key r : String) (o : Option (Option InternalAcquireRequest))
    → get r w.resources ≡ o
    → key_of o ≡ some key
    → ((release_held o key r w).1 ≡ released) × Frees w (release_held o key r w).0 key r
unfolding release_held
release_held-some w key r none e h = cc
release_held-some w key r (some none) e h = cc
release_held-some w key r (some (some holder)) e h = (
  refl,
  (λ x. get-set_item r x none w.resources, λ k. get-del_item key k w.release_key_to_resource, refl),
)

-- A release with a key that is not in use changes nothing and is answered as such. One with a key
-- in use frees the key's resource and takes the key out of use, and changes no other resource, no
-- other key and no waiter. The handler never meets a missing resource or one that nobody holds.
pub release_resource_cases :
    (w : ResourcePoolWorkflow) (a : AcquireResponse)
    → IsConsistent w
    → ((get a.release_key w.release_key_to_resource ≡ none)
        × (release_resource w a ≡ (w, unknown_release_key)))
      ⊎ ((r : String) × (get a.release_key w.release_key_to_resource ≡ some r)
          × ((release_resource w a).1 ≡ released)
          × Frees w (release_resource w a).0 a.release_key r)
unfolding release_resource
release_resource_cases w a v = elim (Option-cases (get a.release_key w.release_key_to_resource)) [
  | inl unknown ↦ inl (unknown, rw (unknown, release_known))
  | inr (r, e) ↦
      let (reply, frees) =
        release_held-some w a.release_key r (get r w.resources) refl
          (v.agree.forward a.release_key r e) in
      inr (r, e, rw (e, release_known) reply, rw (e, release_known) frees)
]

release_resource_unknown :
    (w : ResourcePoolWorkflow) (a : AcquireResponse)
    → get a.release_key w.release_key_to_resource ≡ none
    → release_resource w a ≡ (w, unknown_release_key)
unfolding release_resource
release_resource_unknown w a e = rw (e, release_known)

register-key :
    (w : ResourcePoolWorkflow) (p : Pending)
    → w.pending ≡ some p
    → key_of (get p.resource (assign_resource w delivered).0.resources) ≡ some p.release_signal
unfolding assign_resource register
register-key w p e =
    rw (e, finish_assign)
      (ground (
        arith,
        get-set_item p.resource p.resource
            (some (record (p.internal_request) { release_signal = some p.release_signal }))
            w.resources,
        string_eq.same_iff p.resource p.resource,
      ))

-- The holder may learn its key and release the resource before the pool has recorded the
-- assignment. Such a release is ignored as unknown, and when the answer to the pool's signal comes
-- the resource is recorded as held, under a key that its holder has already used.
pub release-before-register :
    (w : ResourcePoolWorkflow) (p : Pending)
    → IsConsistent w
    → w.pending ≡ some p
    → let early : AcquireResponse = record {
      release_key = p.release_signal;
      resource = p.resource;
    } in
      let u = (assign_resource (release_resource w early).0 delivered).0 in
      (release_resource w early ≡ (w, unknown_release_key))
      × (key_of (get p.resource u.resources) ≡ some p.release_signal)
release-before-register w p v e =
    let early : AcquireResponse = record {
      release_key = p.release_signal;
      resource = p.resource;
    } in
    let pending : PendingIsConsistent (some p) w.resources w.release_key_to_resource =
      rw e at v.awaiting in
    let ignored = release_resource_unknown w early pending.1 in
    (ignored, rw ignored (register-key w p e))
