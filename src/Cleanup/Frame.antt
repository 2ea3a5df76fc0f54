-- ===== src/Cleanup/Frame.antt =====
-- What a cleanup may touch.
use virtwork.Base.{
  String, Bool, true, false, Option, none, some, List, [], ◌∷◌, Result, ok, err, ◌≡◌, refl, All,
}
use virtwork.Config.{Config}
use virtwork.Kube.{Labels, ApiError}
use virtwork.Kube.Client.{Client, Kind, namespace, Meta, Matches, ListsSelected, AreSelected}
use virtwork.Cleanup.{
  CleanupError, Progress, delete_items, delete_kinds, delete_namespace, finish, cleanup_all,
  managed_labels, cleanup_order, after_list, CleanupResult,
}

module _ {W : Type 0} (client : Client W) (cfg : Config) (P : W → Type 0) (selector : Labels)
    (listed : (k : Kind) (w : W) → P w → P (client.list k cfg.namespace selector w).1)
    (deleted : (k : Kind) (m : Meta) (w : W)
      → m.namespace ≡ cfg.namespace
      → Matches selector m.labels
      → P w
      → P (client.delete k m.namespace m.name cfg.dry_run w).1)
    (law : ListsSelected client) where
  delete_items-preserves :
      (k : Kind) (items : List Meta) (p : Progress W)
      → All (λ (m : Meta). (m.namespace ≡ cfg.namespace) × Matches selector m.labels) items
      → P p.world
      → P (delete_items client cfg k items p).world
  unfolding delete_items
  delete_items-preserves k [] p h i = i
  delete_items-preserves k (m ∷ items) p ((n, s), h) i =
      delete_items-preserves k items _ h (deleted k m p.world n s i)

  after_list-preserves :
      (k : Kind) (rest : Progress W → Progress W × Option CleanupError)
      (r : Result ApiError (List Meta) × W) (p : Progress W)
      → AreSelected cfg.namespace selector r.0
      → P r.1
      → ((q : Progress W) → P q.world → P (rest q).0.world)
      → P (after_list client cfg k rest r p).0.world
  unfolding after_list
  after_list-preserves k rest (err e, w) p s i h = i
  after_list-preserves k rest (ok items, w) p s i h = h _ (delete_items-preserves k items _ s i)

  delete_kinds-preserves :
      (kinds : List Kind) (p : Progress W)
      → P p.world
      → P (delete_kinds client cfg selector kinds p).0.world
  unfolding delete_kinds
  delete_kinds-preserves [] p i = i
  delete_kinds-preserves (k ∷ kinds) p i =
      after_list-preserves k _ (client.list k cfg.namespace selector p.world) p
        (law.selected k cfg.namespace selector p.world) (listed k p.world i)
        (λ q. delete_kinds-preserves kinds q)

module _ {W : Type 0} (client : Client W) (cfg : Config) (P : W → Type 0) where
  delete_namespace-preserves :
      (asked : Bool) (r : CleanupResult) (w : W)
      → (asked ≡ true → (w : W) → P w → P (client.delete namespace "" cfg.namespace false w).1)
      → P w
      → P (delete_namespace client cfg asked r w).1
  unfolding delete_namespace
  delete_namespace-preserves false r w h i = i
  delete_namespace-preserves true r w h i = h refl w i

  finish-preserves :
      (asked : Bool) (r : Progress W × Option CleanupError)
      → (asked ≡ true → (w : W) → P w → P (client.delete namespace "" cfg.namespace false w).1)
      → P r.0.world
      → P (finish client cfg asked r).1
  unfolding finish
  finish-preserves asked (p, some e) h i = i
  finish-preserves asked (p, none) h i = delete_namespace-preserves asked _ p.world h i

  -- A property of the world that the lists keep, that the deletion of an object keeps which lies
  -- in the configured namespace and carries the labels of the cleanup (managed by virtwork, and the
  -- run id if one is given), and that the deletion of the namespace keeps if that is asked for, is
  -- kept by the whole cleanup: nothing else is touched. The objects are deleted as a dry run where
  -- the configuration says so.
  pub cleanup_all-frame :
      (asked : Bool) (run_id : String) (w : W)
      → ListsSelected client
      → ((k : Kind) (w : W) → P w → P (client.list k cfg.namespace (managed_labels run_id) w).1)
      → ((k : Kind) (m : Meta) (w : W)
          → m.namespace ≡ cfg.namespace
          → Matches (managed_labels run_id) m.labels
          → P w
          → P (client.delete k m.namespace m.name cfg.dry_run w).1)
      → (asked ≡ true → (w : W) → P w → P (client.delete namespace "" cfg.namespace false w).1)
      → P w
      → P (cleanup_all client cfg asked run_id w).1
  unfolding cleanup_all
  cleanup_all-frame asked run_id w law listed deleted removed i = finish-preserves asked _ removed (
      delete_kinds-preserves client cfg P (managed_labels run_id) listed deleted law cleanup_order _
        i)
