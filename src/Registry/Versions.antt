-- ===== src/Registry/Versions.antt =====
-- Status versions over heartbeats, and recovery from staleness.
use aether_serve.Base.{
  ◌∙◌, ap, ℕ, ◌<◌, ◌≡◌, refl, false, some, arith, ok, err, Option-cases, inl, inr, if◌then◌else◌,
}
use aether_serve.Base.Int.{pos}
use aether_serve.Base.Text.{GoString, str_eq, str_eq_refl}
use aether_serve.Base.Map.{lookup, lookup-insert}
use aether_serve.Base.Sort.{find_by}
use aether_serve.Float.{Float}
use aether_serve.Clock.{Time, Duration}
use aether_serve.Model.{WorkerState, Worker, healthy}
use aether_serve.Registry.{
  Registry, Error, mark, snapshot, clone_worker, clone_state, heartbeat, beat, healthy_count,
}
use aether_serve.Registry.Invariant.{IsWellFormed, heartbeat-IsWellFormed}
use aether_serve.Registry.Snapshot.{id_of, map_option, snapshot_marks, count_healthy_pos}

module _ {F : Type 0} ⦃fl : Float F⦄ where
  -- An accepted heartbeat has a higher version than the stored state, replaces that worker's state and no
  -- other entry, and marks it fresh at the time of the call.
  pub heartbeat_accepted :
      (r : Registry F) (now : Time) (id : GoString) (s : WorkerState F)
      → (heartbeat r now id s).1 ≡ ok tt
      → (old : Worker F) × (lookup id r.workers ≡ some old)
        × (old.state.status_version < s.status_version)
        × ((k : GoString)
            → lookup k (heartbeat r now id s).0.workers ≡ (
                if str_eq id k
                then some (record old { state = s; last_heartbeat = now; stale = false })
                else lookup k r.workers))
  unfolding heartbeat beat clone_state
  heartbeat_accepted r now id s e = elim (Option-cases (lookup id r.workers)) [
    | inl q ↦ absurd (ground arith)
    | inr (w, q) ↦ (
      w,
      q,
      ground arith,
      λ k. ground (
        arith,
        lookup-insert id k (record w { state = s; last_heartbeat = now; stale = false }) r.workers,
      ),
    )
  ]

  -- A refused heartbeat changes nothing.
  pub heartbeat_refused :
      (r : Registry F) (now : Time) (id : GoString) (s : WorkerState F) (x : Error)
      → (heartbeat r now id s).1 ≡ err x
      → (heartbeat r now id s).0 ≡ r
  unfolding heartbeat beat
  heartbeat_refused r now id s x e = ground arith

  heartbeat-stale_after :
      (r : Registry F) (now : Time) (id : GoString) (s : WorkerState F)
      → (heartbeat r now id s).0.stale_after ≡ r.stale_after
  unfolding heartbeat beat
  heartbeat-stale_after r now id s = ground arith

  fresh_now : (w : Worker F) (d : ℕ) → (mark (pos d) w.last_heartbeat w).stale ≡ false
  unfolding mark clone_worker clone_state
  fresh_now w d = ground arith

  mark-status :
      (w : Worker F) (d : Duration) (now : Time) → (mark d now w).state.status ≡ w.state.status
  unfolding mark clone_worker clone_state
  mark-status w d now = refl

  -- On a well-formed registry whose timeout is not negative: after an accepted heartbeat that reports a
  -- healthy worker, the registry counts at least one healthy worker at that time, however long the
  -- worker had been silent.
  pub heartbeat_recovers :
      (r : Registry F) (now : Time) (id : GoString) (s : WorkerState F) (d : ℕ)
      → IsWellFormed r
      → r.stale_after ≡ pos d
      → (heartbeat r now id s).1 ≡ ok tt
      → s.status ≡ healthy
      → 0 < healthy_count (heartbeat r now id s).0 now
  unfolding healthy_count
  heartbeat_recovers r now id s d v after e h =
      let (old, _, _, entries) = heartbeat_accepted r now id s e in
      let r' : Registry F = (heartbeat r now id s).0 in
      let new : Worker F = record old { state = s; last_heartbeat = now; stale = false } in
      let entry : lookup id r'.workers ≡ some new = entries id ∙ rw (str_eq_refl id) in
      let found : find_by id_of id (snapshot r' now) ≡ some (mark (pos d) now new) =
        (snapshot_marks r' now (heartbeat-IsWellFormed r now id s v)).2 id
        ∙ ap (map_option (mark r'.stale_after now)) entry
        ∙ ap (λ (t : Duration). some (mark t now new)) (heartbeat-stale_after r now id s ∙ after) in
      count_healthy_pos id (snapshot r' now) (mark (pos d) now new) found (fresh_now new d)
        (mark-status new (pos d) now ∙ h)
