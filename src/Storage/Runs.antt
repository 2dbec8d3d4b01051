-- ===== src/Storage/Runs.antt =====
-- Runs of writes to the store in memory (pkg/storage/memory.go).
use babylontower.Prelude.{◌≡◌, refl, ap, ◌∙◌, List, [], ◌∷◌, ok, err}
use babylontower.Prelude.Assoc.{lookup}
use babylontower.Storage.Memory.{MemoryStorage, Write, new_memory_storage, lookup_nil}
use babylontower.Storage.Spec.{Op, steps, empty_view}
use babylontower.Storage.Refinement.{write, view}
use babylontower.Storage.Implements.{Maps, store, write-Implements}

-- The calls one after the other; the first error ends the run.
unfoldable pub write_all : List Op → Write
write_all [] s = (s, ok tt)
write_all (op ∷ ops) s =
    let (s', r) = write op s in elim r [ ok u ↦ write_all ops s' | err e ↦ (s', err e) ]

pub write_all-steps :
    (ops : List Op) (m : Maps)
    → (m' : Maps) × (write_all ops (store m) ≡ (store m', ok tt))
      × (view (store m') ≡ steps ops (view (store m)))
unfolding write_all steps
write_all-steps [] m = (m, refl, refl)
write_all-steps (op ∷ ops) m =
    let (m₁, e₁, v₁) = write-Implements op m in
    let (m₂, e₂, v₂) = write_all-steps ops m₁ in
    (
      m₂,
      ap (λ p. elim p.1 [ ok u ↦ write_all ops p.0 | err e ↦ (p.0, err e) ]) e₁ ∙ e₂,
      v₂ ∙ ap (steps ops) v₁,
    )

pub write_all-view :
    (ops : List Op)
    → (s : MemoryStorage) × (write_all ops new_memory_storage ≡ (s, ok tt))
      × (view s ≡ steps ops empty_view)
unfolding new_memory_storage empty_view view lookup_nil lookup
write_all-view ops =
    let (m, e, v) = write_all-steps ops (record {
      contacts = [];
      messages = [];
      peers = [];
      configs = [];
      blacklist = [];
      groups = [];
      sender_keys = [];
      channels = [];
      channel_posts = [];
    }) in
    (store m, e, v)
