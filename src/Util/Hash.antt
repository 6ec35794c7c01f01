-- ===== src/Util/Hash.antt =====
-- util/hash.go: the hash of an address from the last byte of its digest. `sum` is md5, which returns
-- sixteen bytes.
use eggdfs.Base.{ℕ, ◌<◌, ◌≡◌, ◌≢◌, refl, [], ◌∷◌, Outcome, done, panic}
use eggdfs.Base.Text.{Text}

-- `sum[len(sum)-1]` panics on an empty slice.
unfoldable pub last_byte : Text → Outcome ℕ
last_byte [] = panic
last_byte (c ∷ []) = done c
last_byte (c ∷ d ∷ s) = last_byte (d ∷ s)

unfoldable pub md5_hash : (Text → Text) → Text → Outcome ℕ
unfolding last_byte
md5_hash sum src = last_byte (sum src)

abbrev pub AreBytes : Text → Type 0
AreBytes [] = Unit
AreBytes (c ∷ s) = (c < 256) × AreBytes s

last_byte-lt : (s : Text) → AreBytes s → s ≢ [] → (h : ℕ) × (last_byte s ≡ done h) × (h < 256)
unfolding last_byte
last_byte-lt [] bs n = absurd (n refl)
last_byte-lt (c ∷ []) (b, bs) n = (c, refl, b)
last_byte-lt (c ∷ d ∷ s) (b, bs) n = last_byte-lt (d ∷ s) bs (λ e. cc)

-- The hash has at most 256 values.
md5_hash-lt :
    (sum : Text → Text) (src : Text)
    → AreBytes (sum src)
    → sum src ≢ []
    → (h : ℕ) × (md5_hash sum src ≡ done h) × (h < 256)
unfolding md5_hash
md5_hash-lt sum src bs n = last_byte-lt (sum src) bs n
