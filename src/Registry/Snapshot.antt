-- ===== src/Registry/Snapshot.antt =====
-- `Snapshot` against the map that it copies.
use mathlib.Core.List.{Permᴰ}
use mathlib.Core.List.Permᴰ
use aether_serve.Base.{
  ℕ, ◌+◌, ◌-◌, ◌^◌, ◌↔◌, true, sym, subst, ◌<◌, ◌≡◌, ◌≢◌, refl, false, Option, none, some, List, [],
  ◌∷◌, map, arith, All, All-imp, ap, ◌∙◌,
}
use aether_serve.Base.Text.{GoString, str_eq_iff}
use aether_serve.Base.Map.{Map, lookup, IsMap, values}
use aether_serve.Base.Sort.{
  Distinct, IsSorted, sort_by, sort_by-perm, Distinct-perm, sort_by-IsSorted, sort_by-eq_of_perm,
  find_by, find_by-sort_by,
}
use aether_serve.Float.{Float}
use aether_serve.Clock.{Time, Duration, sub}
use aether_serve.Base.Int.{pos, ltb_ℤ}
use aether_serve.Model.{Worker, healthy}
use aether_serve.Registry.{Registry, mark, snapshot, count_healthy, clone_worker, clone_state}
use aether_serve.Registry.Invariant.{EntryIsValid, IsWellFormed}

module _ {F : Type 0} where
  abbrev pub id_of : Worker F → GoString
  id_of w = w.id

  abbrev pub map_option : (Worker F → Worker F) → Option (Worker F) → Option (Worker F)
  map_option f none = none
  map_option f (some w) = some (f w)

  abbrev IsKeyed : GoString × Worker F → Type 0
  IsKeyed e = e.1.id ≡ e.0

  find_by-values :
      (k : GoString) (d : Duration) (now : Time) (m : Map (Worker F))
      → All IsKeyed m
      → find_by id_of k (map (mark d now) (values m)) ≡ map_option (mark d now) (lookup k m)
  unfolding find_by lookup mark
  find_by-values k d now [] h = refl
  find_by-values k d now ((j, w) ∷ m) h = rw h.0 (ground (arith, find_by-values k d now m h.1))

  marked_apart :
      (k : GoString) (d : Duration) (now : Time) (m : Map (Worker F))
      → All IsKeyed m
      → lookup k m ≡ none
      → All (λ (w : Worker F). k ≢ w.id) (map (mark d now) (values m))
  unfolding lookup mark
  marked_apart k d now [] h e = tt
  marked_apart k d now ((j, w) ∷ m) h e = (apart, marked_apart k d now m h.1 rest)
    where
      apart : k ≢ w.id
      apart = ground (arith, str_eq_iff j k)

      rest : lookup k m ≡ none
      rest = ground arith

  marked-Distinct :
      (d : Duration) (now : Time) (m : Map (Worker F))
      → All IsKeyed m
      → IsMap m
      → Distinct id_of (map (mark d now) (values m))
  unfolding mark
  marked-Distinct d now [] h u = tt
  marked-Distinct d now ((j, w) ∷ m) h u =
      (rw h.0 (marked_apart j d now m h.1 u.0), marked-Distinct d now m h.1 u.1)

  -- The loop over a list counts a fresh and healthy entry that it holds.
  pub count_healthy_pos :
      (k : GoString) (ws : List (Worker F)) (w : Worker F)
      → find_by id_of k ws ≡ some w
      → w.stale ≡ false
      → w.state.status ≡ healthy
      → 0 < count_healthy ws
  unfolding find_by count_healthy
  count_healthy_pos k [] w e f h = absurd (cc)
  count_healthy_pos k (v ∷ ws) w e f h = ground (arith, count_healthy_pos k ws w)

-- A stored worker and its copy in a snapshot at `now`: they differ in the mark alone, which is set exactly if more than
-- `timeout` nanoseconds have passed since the last heartbeat; and no entry without the other.
abbrev pub IsCopied :
    {F : Type 0} → (timeout : ℕ) → (now : Time) → Option (Worker F) → Option (Worker F) → Type 0
IsCopied timeout now none none = Unit
IsCopied timeout now (some w) (some copy) =
    (record copy { stale = w.stale } ≡ w)
    × ((copy.stale ≡ true) ↔ (w.last_heartbeat + timeout < now))
IsCopied timeout now _ _ = ⊥

late_iff :
    (timeout : ℕ) (now last : Time)
    → timeout < 2 ^ 63 - 1
    → (ltb_ℤ (pos timeout) (sub now last) ≡ true) ↔ (last + timeout < now)
late_iff timeout now last h = (λ e. ground arith, λ e. ground arith)

module _ {F : Type 0} where
  mark-IsCopied :
      (timeout : ℕ) (now : Time) (o : Option (Worker F))
      → timeout < 2 ^ 63 - 1
      → IsCopied timeout now o (map_option (mark (pos timeout) now) o)
  unfolding mark clone_worker clone_state
  mark-IsCopied timeout now none h = tt
  mark-IsCopied timeout now (some w) h = (refl, late_iff timeout now w.last_heartbeat h)

module _ {F : Type 0} ⦃fl : Float F⦄ where
  -- The entries of a snapshot, one by one.
  pub snapshot_marks :
      (r : Registry F) (now : Time)
      → IsWellFormed r
      → IsSorted id_of (snapshot r now)
        × Distinct id_of (snapshot r now)
        × ((k : GoString)
            → find_by id_of k (snapshot r now)
              ≡ map_option (mark r.stale_after now) (lookup k r.workers))
  unfolding snapshot
  snapshot_marks r now v =
      let ws = map (mark r.stale_after now) (values r.workers) in
      let keyed = All-imp EntryIsValid IsKeyed (λ e h. h.0) r.workers v.entries in
      let distinct = marked-Distinct r.stale_after now r.workers keyed v.keys in
      (
        sort_by-IsSorted id_of ws,
        Distinct-perm id_of (Permᴰ.symm (sort_by-perm id_of ws)) distinct,
        λ k.
            find_by-sort_by id_of k ws distinct
            ∙ find_by-values k r.stale_after now r.workers keyed,
      )

  -- A snapshot of a well-formed registry whose timeout is not negative and below the longest duration is sorted by identifier
  -- without repetition; and it holds, for each identifier, an entry exactly if a worker is stored under it, equal to that
  -- worker but for the mark, which is set exactly if the time of the snapshot is later than the worker's last heartbeat
  -- and the timeout together.
  pub snapshot_refines :
      (r : Registry F) (now : Time) (timeout : ℕ)
      → IsWellFormed r
      → r.stale_after ≡ pos timeout
      → timeout < 2 ^ 63 - 1
      → IsSorted id_of (snapshot r now)
        × Distinct id_of (snapshot r now)
        × ((k : GoString)
            → IsCopied timeout now (lookup k r.workers) (find_by id_of k (snapshot r now)))
  snapshot_refines r now timeout v after h =
      let (sorted, distinct, marks) = snapshot_marks r now v in
      (
        sorted,
        distinct,
        λ k.
            subst (IsCopied timeout now (lookup k r.workers))
              (sym (marks k ∙ ap (λ d. map_option (mark d now) (lookup k r.workers)) after))
              (mark-IsCopied timeout now (lookup k r.workers) h),
      )

  -- The order in which the map is iterated does not show in a snapshot: two well-formed registries
  -- with the same entries in another order, and the same timeout, give the same snapshot.
  pub snapshot-eq_of_perm :
      (r q : Registry F) (now : Time)
      → IsWellFormed r
      → Permᴰ r.workers q.workers
      → r.stale_after ≡ q.stale_after
      → snapshot r now ≡ snapshot q now
  unfolding snapshot
  snapshot-eq_of_perm r q now v d e =
      let keyed = All-imp EntryIsValid IsKeyed (λ e h. h.0) r.workers v.entries in
      sort_by-eq_of_perm id_of (Permᴰ.map _ (Permᴰ.map _ d))
        (marked-Distinct r.stale_after now r.workers keyed v.keys)
      ∙ ap (λ (s : Duration). sort_by id_of (map (mark s now) (values q.workers))) e
