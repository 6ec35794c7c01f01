-- ===== src/Storage/Upload/Save.antt =====
-- `SaveQuickUploadedFile`: what a success means, and when there is one.
use eggdfs.Base.{
  ◌≡◌, ◌≢◌, refl, sym, ◌∙◌, subst, inl, inr, true, false, none, some, List, [], ◌∷◌, Result, ok,
  err, if◌then◌else◌, arith, Bool-cases, Option-cases,
}
use eggdfs.Base.Dict.{lookup, insert, lookup-insert_self}
use eggdfs.Base.Text.{Text, text_eq, text_eq_iff}
use eggdfs.Disk.{Disk, file, Faults, create, copy_into, copied}
use eggdfs.Disk.Files.{SameBut, SameBut-trans, insert-SameBut, create_lem}
use eggdfs.Storage.{Task, remove_later}
use eggdfs.Storage.Upload.{
  FormFile, gen_md5, damaged, check_hash, save_content, save_quick_uploaded_file,
}

err-ne-ok : (e h : Text) → ◌≡◌ {A = Result Text Text} (err e) (ok h) → ⊥
err-ne-ok e h q = cc

ok-injective : (a b : Text) → ◌≡◌ {A = Result Text Text} (ok a) (ok b) → a ≡ b
ok-injective a b q = cc

-- The digest that is compared agrees with the caller's, if the caller gave one.
abbrev pub Agrees : Text → Text → Text → Type 0
Agrees hash digest h = (h ≡ digest) × (hash ≢ [] → hash ≡ h)

check_hash-Agrees :
    (dst digest hash h : Text) → (check_hash dst digest hash).0 ≡ ok h → Agrees hash digest h
unfolding check_hash
check_hash-Agrees dst digest hash h e = elim (Bool-cases (text_eq hash digest)) [
  | inl same ↦
      let q : digest ≡ h = ok-injective digest h (rw same at e) in
      (sym q, λ n. (text_eq_iff hash digest).0 same ∙ q)
  | inr differ ↦ elim (Bool-cases (text_eq hash [])) [
    | inl empty ↦ (
      sym (ok-injective digest h (rw (differ, empty) at e)),
      λ n. absurd (n ((text_eq_iff hash []).0 empty)),
    )
    | inr given ↦ absurd (err-ne-ok damaged h (rw (differ, given) at e))
  ]
]

check_hash_passes :
    (dst digest hash : Text)
    → (if text_eq hash [] then true else text_eq hash digest) ≡ true
    → check_hash dst digest hash ≡ (ok digest, [])
unfolding check_hash
check_hash_passes dst digest hash h = ground arith

check_hash_fails :
    (dst digest hash : Text)
    → hash ≢ []
    → hash ≢ digest
    → check_hash dst digest hash ≡ (err damaged, remove_later dst ∷ [])
unfolding check_hash
check_hash_fails dst digest hash given differ =
    let named : text_eq hash [] ≡ false = ground (arith, text_eq_iff hash []) in
    let apart : text_eq hash digest ≡ false = ground (arith, text_eq_iff hash digest) in
    rw (check_hash, named, apart)

module _ (md5 : Text → Text) (f : Faults) (content dst hash : Text) (d : Disk) where
  save_content_run :
      f.cut ≡ none
      → f.no_reopen ≡ false
      → save_content md5 f content dst hash d ≡ (
        insert dst (file content) d,
        (check_hash dst (gen_md5 md5 f content) hash).0,
        (check_hash dst (gen_md5 md5 f content) hash).1,
      )
  unfolding save_content
  save_content_run whole opens = rw (save_content, copy_into, copied, whole, opens)

  save_content-SameBut : SameBut dst d (save_content md5 f content dst hash d).0
  unfolding save_content copy_into
  save_content-SameBut = elim (Option-cases f.cut) [
    | inr (n, cut) ↦ rw (save_content, copy_into, copied, cut) (insert-SameBut dst _ d)
    | inl whole ↦ elim (Bool-cases f.no_reopen) [
      | inl refused ↦ rw (save_content, copy_into, copied, whole, refused) (insert-SameBut dst _ d)
      | inr opens ↦ rw (save_content_run whole opens) (insert-SameBut dst (file content) d)
    ]
  ]

  save_content_ok :
      (h : Text)
      → (save_content md5 f content dst hash d).1 ≡ ok h
      → (lookup dst (save_content md5 f content dst hash d).0 ≡ some (file content))
        × Agrees hash (gen_md5 md5 f content) h
  unfolding save_content copy_into
  save_content_ok h e = elim (Option-cases f.cut) [
    | inr (n, cut) ↦ absurd (err-ne-ok f.message h (rw (save_content, copy_into, copied, cut) at e))
    | inl whole ↦ elim (Bool-cases f.no_reopen) [
      | inl refused ↦
          absurd (err-ne-ok f.message h (rw (save_content, copy_into, copied, whole, refused) at e))
      | inr opens ↦ (
        rw (save_content_run whole opens) (lookup-insert_self dst (file content) d),
        check_hash-Agrees dst (gen_md5 md5 f content) hash h
            (rw (save_content_run whole opens) at e),
      )
    ]
  ]

module _ (md5 : Text → Text) (f : Faults) (form : FormFile) (dst hash : Text) (d : Disk) where
  abbrev saved : Disk × Result Text Text × List Task
  saved = save_quick_uploaded_file md5 f form dst hash d

  pub save-SameBut : SameBut dst d (save_quick_uploaded_file md5 f form dst hash d).0
  unfolding save_quick_uploaded_file
  save-SameBut = elim (Bool-cases f.no_open) [
    | inl refused ↦ rw (save_quick_uploaded_file, refused) (λ q differ. refl)
    | inr opens ↦ elim (Option-cases (create f dst d)) [
      | inl refused ↦ rw (save_quick_uploaded_file, opens, refused) (λ q differ. refl)
      | inr (d', made) ↦
          rw (save_quick_uploaded_file, opens, made)
            (SameBut-trans dst d d' _
              (subst (SameBut dst d) (sym (create_lem f dst d d' made))
                (insert-SameBut dst (file []) d))
              (save_content-SameBut md5 f form.content dst hash d'))
    ]
  ]

  -- After a success the whole file is there, and its digest is the result.
  pub save_ok :
      (h : Text)
      → (save_quick_uploaded_file md5 f form dst hash d).1 ≡ ok h
      → (lookup dst (save_quick_uploaded_file md5 f form dst hash d).0 ≡ some (file form.content))
        × Agrees hash (gen_md5 md5 f form.content) h
  unfolding save_quick_uploaded_file
  save_ok h e = elim (Bool-cases f.no_open) [
    | inl refused ↦ absurd (err-ne-ok f.message h (rw (save_quick_uploaded_file, refused) at e))
    | inr opens ↦ elim (Option-cases (create f dst d)) [
      | inl refused ↦
          absurd (err-ne-ok f.message h (rw (save_quick_uploaded_file, opens, refused) at e))
      | inr (d', made) ↦
          rw (save_quick_uploaded_file, opens, made)
            (save_content_ok md5 f form.content dst hash d' h
              (rw (save_quick_uploaded_file, opens, made) at e))
    ]
  ]

  -- Where nothing is refused and the digest agrees, the file is saved.
  pub save_succeeds :
      f.no_open ≡ false
      → create f dst d ≡ some (insert dst (file []) d)
      → f.cut ≡ none
      → f.no_reopen ≡ false
      → (if text_eq hash [] then true else text_eq hash (gen_md5 md5 f form.content)) ≡ true
      → save_quick_uploaded_file md5 f form dst hash d ≡ (
        insert dst (file form.content) (insert dst (file []) d),
        ok (gen_md5 md5 f form.content),
        [],
      )
  unfolding save_quick_uploaded_file
  save_succeeds opens made whole reopens agrees = rw (
    save_quick_uploaded_file,
    opens,
    made,
    save_content_run md5 f form.content dst hash (insert dst (file []) d) whole reopens,
    check_hash_passes dst (gen_md5 md5 f form.content) hash agrees,
  )

  -- Where nothing is refused and the digest is another one, the file is left to its removal.
  pub save_damaged :
      f.no_open ≡ false
      → create f dst d ≡ some (insert dst (file []) d)
      → f.cut ≡ none
      → f.no_reopen ≡ false
      → hash ≢ []
      → hash ≢ gen_md5 md5 f form.content
      → save_quick_uploaded_file md5 f form dst hash d ≡ (
        insert dst (file form.content) (insert dst (file []) d),
        err damaged,
        remove_later dst ∷ [],
      )
  unfolding save_quick_uploaded_file
  save_damaged opens made whole reopens given differ = rw (
    save_quick_uploaded_file,
    opens,
    made,
    save_content_run md5 f form.content dst hash (insert dst (file []) d) whole reopens,
    check_hash_fails dst (gen_md5 md5 f form.content) hash given differ,
  )
