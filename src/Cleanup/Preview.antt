-- ===== src/Cleanup/Preview.antt =====
-- What a preview counts, and that it only lists.
use virtwork.Base.{
  ℕ, ◌+◌, String, List, [], ◌∷◌, Result, ok, err, ◌≡◌, refl, ◌∙◌, ap, length, arith,
}
use virtwork.Config.{Config}
use virtwork.Kube.{Labels, ApiError}
use virtwork.Kube.Client.{
  Client, Kind, virtual_machine, service, secret, data_volume, persistent_volume_claim, Meta,
  ListsFound,
}
use virtwork.Cleanup.{
  CleanupError, CleanupPreview, after_count, count_kinds, preview_cleanup, record_listed,
  managed_labels, cleanup_order, no_preview,
}

module _ {W : Type 0} (client : Client W) (cfg : Config) (selector : Labels)
    (law : ListsFound client cfg.namespace selector) where
  -- the number of the objects of a kind that the selector finds
  abbrev pub number : Kind → W → ℕ
  number k w = length (law.found k w)

  -- The counts of a preview are those of the world before it.
  abbrev pub IsCountOf : W → CleanupPreview → Type 0
  IsCountOf w p =
      (p.vm_count ≡ number virtual_machine w)
      × (p.service_count ≡ number service w)
      × (p.secret_count ≡ number secret w)
      × (p.dv_count ≡ number data_volume w)
      × (p.pvc_count ≡ number persistent_volume_claim w)
      × (p.total_count
          ≡ number virtual_machine w
            + number service w
            + number secret w
            + number data_volume w
            + number persistent_volume_claim w)

  -- the outcome of a run: nothing that the selector finds is changed
  abbrev pub Previews : W → Result CleanupError CleanupPreview × W → Type 0
  Previews w (err e, w') = (j : Kind) → law.found j w' ≡ law.found j w
  Previews w (ok p, w') = IsCountOf w p × ((j : Kind) → law.found j w' ≡ law.found j w)

  after_count-Previews :
      (k : Kind) (rest : CleanupPreview → W → Result CleanupError CleanupPreview × W)
      (r : Result ApiError (List Meta) × W) (p : CleanupPreview) (w₀ w : W)
      → ((items : List Meta) → r.0 ≡ ok items → items ≡ law.found k w)
      → ((j : Kind) → law.found j r.1 ≡ law.found j w)
      → ((j : Kind) → law.found j w ≡ law.found j w₀)
      → ((items : List Meta) (w' : W)
          → length items ≡ number k w₀
          → ((j : Kind) → law.found j w' ≡ law.found j w₀)
          → Previews w₀ (rest (record_listed k items p) w'))
      → Previews w₀ (after_count client cfg k rest r p)
  unfolding after_count
  after_count-Previews k rest (err e, w') p w₀ w shows keeps before h = λ j. keeps j ∙ before j
  after_count-Previews k rest (ok items, w') p w₀ w shows keeps before h =
      h items w' (ap length (shows items refl ∙ before k)) (λ j. keeps j ∙ before j)

  section :
      (k : Kind) (kinds : List Kind) (p : CleanupPreview) (w₀ w : W)
      → ((j : Kind) → law.found j w ≡ law.found j w₀)
      → ((items : List Meta) (w' : W)
          → length items ≡ number k w₀
          → ((j : Kind) → law.found j w' ≡ law.found j w₀)
          → Previews w₀ (count_kinds client cfg selector kinds (record_listed k items p) w'))
      → Previews w₀ (count_kinds client cfg selector (k ∷ kinds) p w)
  unfolding count_kinds
  section k kinds p w₀ w before h =
      after_count-Previews k _ (client.list k cfg.namespace selector w) p w₀ w
        (λ items e. law.shows k w items e) (λ j. law.keeps j k w) before h

  count_kinds-Previews :
      (w : W) → Previews w (count_kinds client cfg selector cleanup_order no_preview w)
  unfolding count_kinds record_listed
  count_kinds-Previews w =
      section virtual_machine (service ∷ secret ∷ data_volume ∷ persistent_volume_claim ∷ [])
        no_preview w w (λ j. refl)
        (λ a w₁ ea s₁.
          let p₁ = record_listed virtual_machine a no_preview in
          section service (secret ∷ data_volume ∷ persistent_volume_claim ∷ []) p₁ w w₁ s₁
            (λ b w₂ eb s₂.
              let p₂ = record_listed service b p₁ in
              section secret (data_volume ∷ persistent_volume_claim ∷ []) p₂ w w₂ s₂ (λ c w₃ ec s₃.
                let p₃ = record_listed secret c p₂ in
                section data_volume (persistent_volume_claim ∷ []) p₃ w w₃ s₃ (λ d w₄ ed s₄.
                  let p₄ = record_listed data_volume d p₃ in
                  section persistent_volume_claim [] p₄ w w₄ s₄
                    (λ f w₅ ef s₅. ((ea, eb, ec, ed, ef, omega arith), s₅))))))

module _ {W : Type 0} (client : Client W) (cfg : Config) (selector : Labels) (P : W → Type 0)
    (listed : (k : Kind) (w : W) → P w → P (client.list k cfg.namespace selector w).1) where
  after_count-keeps :
      (k : Kind) (rest : CleanupPreview → W → Result CleanupError CleanupPreview × W)
      (r : Result ApiError (List Meta) × W) (p : CleanupPreview)
      → P r.1
      → ((q : CleanupPreview) (w : W) → P w → P (rest q w).1)
      → P (after_count client cfg k rest r p).1
  unfolding after_count
  after_count-keeps k rest (err e, w) p h g = h
  after_count-keeps k rest (ok items, w) p h g = g _ w h

  count_kinds-keeps :
      (kinds : List Kind) (p : CleanupPreview) (w : W)
      → P w
      → P (count_kinds client cfg selector kinds p w).1
  unfolding count_kinds
  count_kinds-keeps [] p w h = h
  count_kinds-keeps (k ∷ kinds) p w h =
      after_count-keeps k _ (client.list k cfg.namespace selector w) p (listed k w h)
        (λ q v g. count_kinds-keeps kinds q v g)

module _ {W : Type 0} (client : Client W) (cfg : Config) where
  -- Where a list shows what there is and does not change it: each count of a preview that succeeds is
  -- the number of the objects of that kind that carry the labels of a cleanup with the same run id,
  -- the total is their sum, and what these labels find is unchanged. Whatever the lists with these
  -- labels leave alone, a preview leaves alone, if it fails as well: it makes no other call.
  pub preview_cleanup-Previews :
      (run_id : String) (w : W) (law : ListsFound client cfg.namespace (managed_labels run_id))
      (P : W → Type 0)
      → ((k : Kind) (w : W) → P w → P (client.list k cfg.namespace (managed_labels run_id) w).1)
      → P w
      → Previews client cfg (managed_labels run_id) law w (preview_cleanup client cfg run_id w)
        × P (preview_cleanup client cfg run_id w).1
  unfolding preview_cleanup
  preview_cleanup-Previews run_id w law P listed h = (
    count_kinds-Previews client cfg (managed_labels run_id) law w,
    count_kinds-keeps client cfg (managed_labels run_id) P listed cleanup_order no_preview w h,
  )
