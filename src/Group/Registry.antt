-- ===== src/Group/Registry.antt =====
-- The operations on the map of storages keep it well-formed, and act on it as on a finite map.
use mathlib.Core.Option.{get_or}
use eggdfs.Base.{
  ◌≡◌, ◌≢◌, refl, Option, none, some, [], Outcome, Result, ok, err, done, arith, ◌∙◌, inl, inr,
  Option-cases, if◌then◌else◌,
}
use eggdfs.Base.Text.{Text, text_eq, text_eq_iff}
use eggdfs.Base.Dict.{
  lookup, insert, remove, lookup-insert, insert-NodupKeys, Each-insert, lookup-remove,
  remove-NodupKeys, Each-remove,
}
use eggdfs.Group.{
  StorageServer, Group, IsWell, IsSlot, locking, get_storage, register_storage, remove_storage,
  update_storage, save_or_update_storage, addr_nil, nil_storage,
}

-- The group after its map was changed, well-formed, with a map that `find` describes.
abbrev pub Becomes : Outcome (Result Text Group) → Group → (Text → Option StorageServer) → Type 0
Becomes r g find =
    (h : Group) × (r ≡ done (ok h))
    × IsWell h
    × ((k : Text) → get_storage k h ≡ find k)
    × (h ≡ record g { storages = h.storages })

-- The same if there was a server to replace, and an error if there was none.
abbrev pub Updates :
    Option StorageServer
    → Outcome (Result Text Group)
    → Group
    → (Text → Option StorageServer)
    → Type 0
Updates none r g find = r ≡ done (err nil_storage)
Updates (some _) r g find = Becomes r g find

module _ (s : StorageServer) (g : Group) (well : IsWell g) (named : s.addr ≢ []) where
  unlocked {ℓ} :
      {A : Type ℓ} (a b : A) → (if text_eq s.addr [] then done b else locking g a) ≡ done a
  unlocked a b = ground (arith, text_eq_iff s.addr [], well.released)

  insert-IsWell : s.group ≡ g.name → IsWell (record g { storages = insert s.addr s g.storages })
  insert-IsWell e = record {
    distinct = insert-NodupKeys s.addr s g.storages well.distinct;
    slots = Each-insert (IsSlot g.name) s.addr s g.storages well.slots (refl, named, e);
    released = well.released;
  }

  -- `SaveOrUpdateStorage` of a server of a well-formed group, with an address, puts it under that
  -- address, over any older one. All else keeps its place, and the group stays well-formed.
  pub save_or_update_storage_lem :
      s.group ≡ g.name
      → Becomes
          (save_or_update_storage s g)
          g
          (λ k. if text_eq s.addr k then some s else get_storage k g)
  unfolding save_or_update_storage get_storage
  save_or_update_storage_lem e = (
    record g { storages = insert s.addr s g.storages },
    unlocked _ _,
    insert-IsWell e,
    (λ k. lookup-insert s.addr k s g.storages),
    refl,
  )

  -- `RemoveStorage` from a well-formed group takes away the server at the address, if the address
  -- is not empty, and no other, and the group stays well-formed.
  pub remove_storage_lem :
      Becomes (remove_storage s g) g (λ k. if text_eq s.addr k then none else get_storage k g)
  unfolding remove_storage get_storage
  remove_storage_lem = (
    record g { storages = remove s.addr g.storages },
    unlocked _ _,
    record {
      distinct = remove-NodupKeys s.addr g.storages well.distinct;
      slots = Each-remove (IsSlot g.name) s.addr g.storages well.slots;
      released = well.released;
    },
    (λ k. lookup-remove s.addr k g.storages well.distinct),
    refl,
  )

  -- `RegisterStorage` of a server of a well-formed group, with an address, adds it if nothing
  -- stands at the address, and never replaces a registered one. The group stays well-formed.
  pub register_storage_lem :
      s.group ≡ g.name
      → Becomes (register_storage s g) g (λ k.
        if text_eq s.addr k then some (get_or (get_storage s.addr g) s) else get_storage k g)
  unfolding register_storage get_storage
  register_storage_lem e = elim (Option-cases (lookup s.addr g.storages)) [
    | inl fresh ↦ (
      record g { storages = insert s.addr s g.storages },
      unlocked _ _ ∙ rw fresh,
      insert-IsWell e,
      (λ k. rw fresh (lookup-insert s.addr k s g.storages)),
      refl,
    )
    | inr (t, old) ↦
        (g, unlocked _ _ ∙ rw old, well, (λ k. ground (arith, old, text_eq_iff s.addr k)), refl)
  ]

  -- `UpdateStorage` of a server of a well-formed group, with an address, replaces the registered
  -- one and leaves the group well-formed, and is an error if none is registered at the address.
  pub update_storage_lem :
      s.group ≡ g.name
      → Updates
          (get_storage s.addr g)
          (update_storage s g)
          g
          (λ k. if text_eq s.addr k then some s else get_storage k g)
  unfolding update_storage get_storage
  update_storage_lem e = elim (Option-cases (lookup s.addr g.storages)) [
    | inl fresh ↦ rw fresh (ground (arith, text_eq_iff s.addr [], well.released))
    | inr (t, old) ↦ rw old (
      record g { storages = insert s.addr s g.storages },
      ground (arith, text_eq_iff s.addr [], well.released, old),
      insert-IsWell e,
      (λ k. lookup-insert s.addr k s g.storages),
      refl,
    )
  ]

-- A server with no address is refused by every writer, and the group stays as it is.
pub no_addr_refused :
    (s : StorageServer) (g : Group)
    → s.addr ≡ []
    → (register_storage s g ≡ done (err addr_nil))
      × (remove_storage s g ≡ done (err addr_nil))
      × (update_storage s g ≡ done (err addr_nil))
      × (save_or_update_storage s g ≡ done (err addr_nil))
unfolding register_storage remove_storage update_storage save_or_update_storage
no_addr_refused s g e = ground (arith, text_eq_iff s.addr [])
