-- ===== src/Http/Post.antt =====
-- The call itself: what it sends, and what it returns. `marshal` is json.Marshal, `new_request`
-- http.NewRequest, `deliver` the client, and `read` io.ReadAll of the body of the answer.
use mathlib.Core.Option.{none-ne-some}
use eggdfs.Base.{
  ◌≡◌, sym, ap, Option, none, some, List, [], ◌∷◌, Result, ok, err, inl, inr, Result-cases,
}
use eggdfs.Base.Dict.{Dict, lookup, insert, lookup-insert_self}
use eggdfs.Base.Text.{Text, bytes}

unfoldable pub content_type : Text
content_type = bytes "Content-Type"

unfoldable pub json_utf8 : Text
json_utf8 = bytes "application/json;charset=UTF-8"

-- The loop over `header`, whose keys are all different and in canonical form, and the line after it.
unfoldable pub set_all : List (Text × Text) → Dict Text → Dict Text
set_all [] h = h
set_all ((k, v) ∷ header) h = set_all header (insert k v h)

unfoldable pub post_headers : List (Text × Text) → Dict Text
unfolding set_all content_type json_utf8
post_headers header = insert content_type json_utf8 (set_all header [])

module _ {A R : Type 0} (marshal : A → Result Text Text) (new_request : Text → Text → Result Text R)
    (deliver : R → Dict Text → Result Text Text) (read : Text → Text × Option Text) where
  -- The results `res` and `err`. A body that breaks off is returned with its error.
  unfoldable pub http_post_call : Text → A → List (Text × Text) → Text × Option Text
  unfolding post_headers
  http_post_call url body header = elim (marshal body) [
    | err e ↦ ([], some e)
    | ok b ↦ elim (new_request url b) [
      | err e ↦ ([], some e)
      | ok rq ↦ elim (deliver rq (post_headers header)) [
        | err e ↦ ([], some e)
        | ok resp ↦ read resp
      ]
    ]
  ]

  -- A call without an error has posted the encoded body under the headers, and its result is the whole
  -- body of an answer.
  pub http_post_call_ok :
      (url : Text) (body : A) (header : List (Text × Text)) (res : Text)
      → http_post_call url body header ≡ (res, none)
      → (b : Text) × (rq : R) × (resp : Text) × (marshal body ≡ ok b)
        × (new_request url b ≡ ok rq)
        × (deliver rq (post_headers header) ≡ ok resp)
        × (read resp ≡ (res, none))
  unfolding http_post_call
  http_post_call_ok url body header res e = elim (Result-cases (marshal body)) [
    | inr (m, f) ↦ absurd (none-ne-some m (sym (ap (λ z. z.1) (rw (http_post_call, f) at e))))
    | inl (b, f) ↦ elim (Result-cases (new_request url b)) [
      | inr (m, g) ↦ absurd (none-ne-some m (sym (ap (λ z. z.1) (rw (http_post_call, f, g) at e))))
      | inl (rq, g) ↦ elim (Result-cases (deliver rq (post_headers header))) [
        | inr (m, h) ↦
            absurd (none-ne-some m (sym (ap (λ z. z.1) (rw (http_post_call, f, g, h) at e))))
        | inl (resp, h) ↦ (b, rq, resp, f, g, h, rw (http_post_call, f, g, h) at e)
      ]
    ]
  ]

-- Every post is declared as JSON, whatever type the caller's headers name.
pub post_headers-json :
    (header : List (Text × Text)) → lookup content_type (post_headers header) ≡ some json_utf8
unfolding post_headers
post_headers-json header = lookup-insert_self content_type json_utf8 (set_all header [])
