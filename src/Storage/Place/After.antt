-- ===== src/Storage/Place/After.antt =====
-- A file that was put in its place, or removed from it, leaves the room for it.
use mathlib.Core.List.{Mem}
use mathlib.Core.Option.{some-injective}
use eggdfs.Base.{◌≢◌, sym, ◌∙◌, subst, inl, inr, some, [], ◌∷◌, arith, Bool-cases}
use eggdfs.Base.Dict.{lookup}
use eggdfs.Base.Text.{Text, text_eq, text_eq_iff}
use eggdfs.Disk.{Disk, file, dir, prefixes_from}
use eggdfs.Disk.Files.{GrowsBut}
use eggdfs.Storage.{slash}
use eggdfs.Storage.Place.{HasRoom, prefixes_from-length, length-append}

pub dir-ne-file : (x : Text) → dir ≢ file x
dir-ne-file x e = cc

-- The path of a file is no part of the path of its directory.
not_on_the_way : (base name : Text) → ¬ Mem (slash base name) (prefixes_from [] base)
unfolding slash
not_on_the_way base name m =
    absurd (omega (arith, prefixes_from-length [] base _ m, length-append base (b'/' ∷ name)))

pub HasRoom-after :
    (base name : Text) (d d' : Disk)
    → HasRoom base name d
    → lookup (slash base name) d' ≢ some dir
    → GrowsBut (slash base name) d d'
    → HasRoom base name d'
HasRoom-after base name d d' room there grows = record {
  rooted = room.rooted;
  free = free;
  slot = there;
  plain = room.plain;
  named = room.named;
}
  where
    free : (p : Text) → Mem p (prefixes_from [] base) → (y : Text) → lookup p d' ≢ some (file y)
    free p m y e = elim (Bool-cases (text_eq (slash base name) p)) [
      | inl same ↦
          not_on_the_way base name
            (subst (λ q. Mem q (prefixes_from [] base)) (sym ((text_eq_iff _ p).0 same)) m)
      | inr differ ↦ elim (grows p differ) [
        | inl kept ↦ room.free p m y (sym kept ∙ e)
        | inr (gone, made) ↦ dir-ne-file y (some-injective _ _ (sym made ∙ e))
      ]
    ]
