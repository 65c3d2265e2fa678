-- ===== src/Repository/Firestore/UserRefinement.antt =====
-- What the Firestore repository of users finds.
use mathlib.Core.Option
use phyai_saas_train_vla.Prelude.{
  ◌≡◌, refl, sym, ◌∙◌, ap, String, Bool, true, false, Option, none, some, List, [], ◌∷◌, arith,
  eq_iff, ok, text_eq, Option-cases, inl, inr,
}
use phyai_saas_train_vla.Dict
use phyai_saas_train_vla.Dict.{Dict}
use phyai_saas_train_vla.Dict.Keyed.{IsKeyed, Stored, get-IsKeyed}
use phyai_saas_train_vla.Common.Models.{User}
use phyai_saas_train_vla.Repository.Users as Memory
use phyai_saas_train_vla.Repository.Users.{is_text}
use phyai_saas_train_vla.Repository.Firestore.{
  Document, Row, Client, IsFirestore, OneOf, is_one_of, field_get, text,
}
use phyai_saas_train_vla.Repository.Firestore.Codec.{DateText, IsDateText, user_to_doc, or_null}
use phyai_saas_train_vla.Repository.Firestore.RoundTrip.{doc_to_user-user_to_doc}
use phyai_saas_train_vla.Repository.Firestore.Users.{
  found_user, first_user, get, get_by_email, get_by_hf_user_id,
}

abbrev pub user_id : User → String
user_id user = user.id

-- A search gives a stored user who fits, or none where none does.
abbrev pub Finds : Dict User → (User → Bool) → Option User → Type 0
Finds users fits none = (user : User) → Stored user_id users user → fits user ≡ false
Finds users fits (some user) = Stored user_id users user × (fits user ≡ true)

module _ {C : Type 0} (client : Client C) (documented : IsFirestore client) (dates : DateText)
    (readable : IsDateText dates) (c : C) (users : Dict User)
    (same : (id : String)
      → client.get_doc c id ≡ Option.map (user_to_doc dates) (Dict.get users id))
    (keyed : IsKeyed user_id users) where
  some_document :
      (doc : Document) (o : Option User)
      → some doc ≡ Option.map (user_to_doc dates) o
      → (user : User) × (o ≡ some user) × (doc ≡ user_to_doc dates user)
  some_document doc none e = cc
  some_document doc (some user) e = (user, refl, cc)

  row-user :
      (id : String) (doc : Document)
      → client.get_doc c id ≡ some doc
      → (user : User) × (user.id ≡ id) × Stored user_id users user × (doc ≡ user_to_doc dates user)
  row-user id doc e =
      let (user, there, doc_eq) = some_document doc (Dict.get users id) (sym e ∙ same id) in
      let id_eq = get-IsKeyed user_id users id user keyed there in
      (user, id_eq, rw id_eq there, doc_eq)

  read_back :
      (id : String) (doc : Document) (user : User)
      → user.id ≡ id
      → doc ≡ user_to_doc dates user
      → found_user client dates id (some doc) ≡ ok (some user)
  read_back id doc user e d = rw (← e, d, doc_to_user-user_to_doc dates readable user) refl

  search-Finds :
      (key value : String) (fits : User → Bool) (rows : List Row)
      → ((user : User)
          → is_one_of (value ∷ []) (field_get (user_to_doc dates user) key) ≡ fits user)
      → OneOf client c key value rows
      → (o : Option User) × (first_user client dates rows ≡ ok o) × Finds users fits o
  search-Finds key value fits [] means answer = (
    none,
    refl,
    λ user there.
        sym (means user)
        ∙ answer user.id (user_to_doc dates user)
            (same user.id ∙ ap (Option.map (user_to_doc dates)) there),
  )
  search-Finds key value fits ((id, doc) ∷ rows) means answer =
      let (user, id_eq, there, doc_eq) = row-user id doc answer.0 in
      (
        some user,
        read_back id doc user id_eq doc_eq,
        (there, sym (means user) ∙ (rw doc_eq at answer.1)),
      )

  is_text-document :
      (value : String) (o : Option String)
      → is_one_of (value ∷ []) (some (or_null text o)) ≡ is_text o value
  is_text-document value none = refl
  is_text-document value (some s) = ground (arith, eq_iff s value, eq_iff value s)

  -- If a client that keeps to Firestore's documentation holds the documents of the stored users, its
  -- repository finds by email and by Hugging Face id a stored user who has them, and none exactly
  -- where no stored user has; a user is read by id as the in-memory repository reads it.
  pub firestore_users_refine :
      (id email hf_user_id : String)
      → (get client dates c id ≡ ok (Memory.get users id))
        × ((o : Option User) × (get_by_email client dates c email ≡ ok o)
            × Finds users (λ user. is_text user.email email) o)
        × ((o : Option User) × (get_by_hf_user_id client dates c hf_user_id ≡ ok o)
            × Finds users (λ user. is_text user.hf_user_id hf_user_id) o)
  unfolding get get_by_email get_by_hf_user_id user_to_doc Memory.get
  firestore_users_refine id email hf_user_id = (
    by_id,
    search-Finds "email" email (λ user. is_text user.email email) (client.limit_one c "email" email)
        (λ user. is_text-document email user.email) (documented.one c "email" email),
    search-Finds "hf_user_id" hf_user_id (λ user. is_text user.hf_user_id hf_user_id)
        (client.limit_one c "hf_user_id" hf_user_id)
        (λ user. is_text-document hf_user_id user.hf_user_id)
        (documented.one c "hf_user_id" hf_user_id),
  )
    where
      by_id : found_user client dates id (client.get_doc c id) ≡ ok (Dict.get users id)
      by_id = elim (Option-cases (Dict.get users id)) [
        | inl missing ↦ rw (same id, missing) refl
        | inr (user, there) ↦
            rw (same id, there)
              (read_back id (user_to_doc dates user) user
                (get-IsKeyed user_id users id user keyed there) refl)
      ]
