-- ===== src/Http.antt =====
-- `HttpPost` (util/helper.go): the call, and its timeout. The timeout is a field of
-- `http.DefaultClient`, which every post sets and every request reads, `http.Get` in svc/storage.go too.
pub mod Post
use eggdfs.Base.{ℕ, ◌≡◌, refl, List, [], ◌∷◌}

-- What the goroutine `who` does to the client: it sets the timeout, or it sends a request.
pub data Event : Type 0 where
  set_timeout : ℕ → ℕ → Event
  send : ℕ → Event

abbrev pub http_post : ℕ → ℕ → List Event
http_post who timeout = set_timeout who timeout ∷ send who ∷ []

abbrev pub http_get : ℕ → List Event
http_get who = send who ∷ []

-- The requests of a run, each with its sender and the timeout under which it goes out.
unfoldable pub requests : ℕ → List Event → List (ℕ × ℕ)
requests t [] = []
requests t (set_timeout who n ∷ es) = requests n es
requests t (send who ∷ es) = (who, t) ∷ requests t es

-- The runs of two goroutines.
pub data Interleaving : List Event → List Event → List Event → Type 0 where
  over : Interleaving [] [] []
  left :
      (e : Event) {as' bs es : List Event}
      → Interleaving as' bs es
      → Interleaving (e ∷ as') bs (e ∷ es)
  right :
      (e : Event) {as' bs es : List Event}
      → Interleaving as' bs es
      → Interleaving as' (e ∷ bs) (e ∷ es)

-- A post that asks for one timeout can go out under that of any other post, and so can a get.
timeout_shared :
    (a b n m t : ℕ)
    → ((es : List Event) × Interleaving (http_post a n) (http_post b m) es
        × (requests t es ≡ (a, m) ∷ (b, m) ∷ []))
      × ((es : List Event) × Interleaving (http_get a) (http_post b m) es
          × (requests t es ≡ (a, m) ∷ (b, m) ∷ []))
unfolding requests
timeout_shared a b n m t = (
  (
    set_timeout a n ∷ set_timeout b m ∷ send a ∷ send b ∷ [],
    left (set_timeout a n) (right (set_timeout b m) (left (send a) (right (send b) over))),
    refl,
  ),
  (
    set_timeout b m ∷ send a ∷ send b ∷ [],
    right (set_timeout b m) (left (send a) (right (send b) over)),
    refl,
  ),
)
