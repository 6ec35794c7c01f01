-- ===== src/Group/Capacity.antt =====
-- `GetGroupCap`: the least free space, and the lock that its early return keeps.
use mathlib.Core.List.{Mem, Perm, mem-cons, Pairwise-cons}
use mathlib.Core.List.Perm
use mathlib.Core.Logic.Or
use native.Mathlib.Bridge.{le_prop}
use eggdfs.Base.{
  ℕ, ◌+◌, ◌≤◌, ◌≡◌, ◌≢◌, refl, List, [], ◌∷◌, map, done, blocked, arith, ltb, ap, ◌>>=◌, ◌∙◌, subst,
}
use eggdfs.Base.Text.{text_eq_iff}
use eggdfs.Base.Dict.{Dict, values}
use eggdfs.Base.Sort.{sort_slice}
use eggdfs.Base.Sort.Laws.{IsOrder, IsAscending, sort_slice-perm, sort_slice-IsAscending}
use eggdfs.Base.Visit.{Visit}
use eggdfs.Group.{
  StorageServer, Group, get_group_cap, cap_of, first_cap, save_or_update_storage, register_storage,
  update_storage, remove_storage,
}

ltb-IsOrder : IsOrder ltb
ltb-IsOrder = record { asym = λ a b h. ground arith; neg_trans = λ a b c h k. ground arith }

-- `c` is the least of the numbers.
abbrev pub IsLeast : ℕ → List ℕ → Type 0
IsLeast c l = Mem c l × ((d : ℕ) → Mem d l → c ≤ d)

first-IsLeast :
    (l : List ℕ) → l ≢ [] → IsAscending ltb l → (c : ℕ) × (first_cap l ≡ done c) × IsLeast c l
unfolding first_cap
first-IsLeast [] n a = absurd (n refl)
first-IsLeast (c ∷ cs) n a = (
  c,
  refl,
  (
    mem-cons.1 (Or.inl refl),
    λ d m.
        Or.elim le_prop (mem-cons.0 m) (λ e. omega arith)
          (λ i. let h = (Pairwise-cons.0 a).0 d i in ground arith),
  ),
)

IsLeast-perm : (c : ℕ) (l m : List ℕ) → Perm l m → IsLeast c l → IsLeast c m
IsLeast-perm c l m p h = ((Perm.mem_iff p).0 h.0, λ d i. h.1 d ((Perm.mem_iff p).1 i))

-- The free space of the servers, in any order.
abbrev pub frees : Group → List ℕ
frees g = map (λ s. s.free) (values g.storages)

sorted_caps : Visit StorageServer → Group → List ℕ
sorted_caps v g = sort_slice ltb (map (λ s. s.free) (v.visit (values g.storages)))

caps-perm : (v : Visit StorageServer) (g : Group) → Perm (sorted_caps v g) (frees g)
unfolding sorted_caps
caps-perm v g = Perm.trans (sort_slice-perm ltb _) (Perm.map (λ s. s.free) (v.visit-perm _))

IsLeast-caps :
    (v : Visit StorageServer) (g : Group)
    → frees g ≢ []
    → (c : ℕ) × (first_cap (sorted_caps v g) ≡ done c) × IsLeast c (frees g)
unfolding sorted_caps
IsLeast-caps v g n =
    let (c, e, least) =
      first-IsLeast (sorted_caps v g)
        (λ q. n (Perm.eq-nil (Perm.symm (subst (λ l. Perm l (frees g)) q (caps-perm v g)))))
        (sort_slice-IsAscending ltb ltb-IsOrder _) in
    (c, e, IsLeast-perm c _ _ (caps-perm v g) least)

frees-ne-nil : (m : Dict StorageServer) → m ≢ [] → map (λ s. s.free) (values m) ≢ []
unfolding values
frees-ne-nil [] n e = n refl
frees-ne-nil (_ ∷ m) n e = cc

cap_of-cons :
    (v : Visit StorageServer) (g : Group) (m : Dict StorageServer)
    → m ≢ []
    → cap_of m v g
      ≡ (first_cap (sort_slice ltb (map (λ s. s.free) (v.visit (values m)))) >>= λ c. done (c, g))
unfolding cap_of
cap_of-cons v g [] n = absurd (n refl)
cap_of-cons v g (e ∷ m) n = refl

-- `GetGroupCap` of a group that has storages returns the least free space among them, and
-- releases its lock.
pub get_group_cap-IsLeast :
    (v : Visit StorageServer) (g : Group)
    → g.storages ≢ []
    → (c : ℕ) × (get_group_cap v g ≡ done (c, g)) × IsLeast c (frees g)
unfolding get_group_cap sorted_caps first_cap
get_group_cap-IsLeast v g n =
    let (c, e, least) = IsLeast-caps v g (frees-ne-nil g.storages n) in
    (c, cap_of-cons v g g.storages n ∙ ap (λ o. o >>= λ d. done (d, g)) e, least)

-- `GetGroupCap` of a group with no storage returns 0 and keeps its read lock: every later call
-- that writes the group's map waits for ever.
pub get_group_cap_empty :
    (v : Visit StorageServer) (g : Group) (s : StorageServer)
    → g.storages ≡ []
    → s.addr ≢ []
    → (h : Group) × (get_group_cap v g ≡ done (0, h))
      × (save_or_update_storage s h ≡ blocked)
      × (register_storage s h ≡ blocked)
      × (update_storage s h ≡ blocked)
      × (remove_storage s h ≡ blocked)
unfolding get_group_cap save_or_update_storage register_storage update_storage remove_storage
get_group_cap_empty v g s e named = (
  record g { readers = g.readers + 1 },
  rw e,
  ground (arith, text_eq_iff s.addr []),
  ground (arith, text_eq_iff s.addr []),
  ground (arith, text_eq_iff s.addr []),
  ground (arith, text_eq_iff s.addr []),
)
