-- ===== src/Market/Moves.antt =====
-- The buyer's moves on a request (requests.service.ts) and the marks on an offer (offers.service.ts),
-- from the first read to the last write, against the invariant.
use buyseekk.Prelude.{ℕ, ◌≡◌, refl, ◌⊎◌, inl, inr, true, some, modify, arith}
use buyseekk.Db.Schema.{Request, Offer, Db}
use buyseekk.Offers.Listing.{dismiss, remove_from_listing}
use buyseekk.Requests.Lifecycle.{
  close_commit, close, renew, pause, remove, renew_row, pause_row, deactivate,
}
use buyseekk.Market.Invariant.{KeepsStatus, modify_request-IsValid}
use buyseekk.Market.Negotiation.{DbIsValid, Unchanged}
use buyseekk.Access.{Env}
use buyseekk.Requests.Publish.{Catalogue}
use buyseekk.Requests.Edit.{UpdateRequestDto, update, edited_row}
use buyseekk.Requests.Edit.Laws.{update_path}
use buyseekk.Market.Requests.{
  edited-KeepsStatus, close_commit-IsValid, renew-KeepsStatus, pause-KeepsStatus,
  deactivate-KeepsStatus, IsMark, mark-IsValid,
}
use buyseekk.Market.Methods.{Unchanged-IsValid}

-- A method that leaves the offers alone and changes at most one request, by an update `f`.
abbrev pub Updates : (Request → Request) → ℕ → Db → Db → Type 0
Updates f id db db' =
    Unchanged db db' ⊎ ((db'.requests ≡ modify db.requests id f) × (db'.offers ≡ db.offers))

pub Updates-IsValid :
    (f : Request → Request) (id : ℕ) (db db' : Db)
    → KeepsStatus f
    → Updates f id db db'
    → DbIsValid db
    → DbIsValid db'
Updates-IsValid f id db db' k u v = elim u [
  | inl same ↦ Unchanged-IsValid db db' same v
  | inr (r, o) ↦ rw (r, o) (modify_request-IsValid id f db.requests db.offers k v)
]

pub renew_path :
    (now user_id id : ℕ) (db : Db) → Updates (renew_row now) id db (renew now user_id id db).1
unfolding renew
renew_path now user_id id db = ground arith

pub pause_path :
    (now user_id id : ℕ) (db : Db) → Updates (pause_row now) id db (pause now user_id id db).1
unfolding pause
pause_path now user_id id db = ground arith

pub remove_path : (user_id id : ℕ) (db : Db) → Updates deactivate id db (remove user_id id db).1
unfolding remove
remove_path user_id id db = ground arith

pub close_path :
    (now user_id id : ℕ) (db : Db)
    → let db' = (close now user_id id db).1 in
      Unchanged db db' ⊎ Unchanged (close_commit now id db) db'
unfolding close
close_path now user_id id db = ground arith

pub close-IsValid :
    (now user_id id : ℕ) (db : Db) → DbIsValid db → DbIsValid (close now user_id id db).1
close-IsValid now user_id id db v = elim (close_path now user_id id db) [
  | inl same ↦ Unchanged-IsValid db (close now user_id id db).1 same v
  | inr rest ↦
      Unchanged-IsValid (close_commit now id db) (close now user_id id db).1 rest
        (close_commit-IsValid now id db v)
]

-- A method that leaves the requests alone and marks at most one offer.
abbrev pub Marks : (Offer → Offer) → ℕ → Db → Db → Type 0
Marks f id db db' =
    Unchanged db db' ⊎ ((db'.requests ≡ db.requests) × (db'.offers ≡ modify db.offers id f))

pub Marks-IsValid :
    (f : Offer → Offer) (id : ℕ) (db db' : Db)
    → IsMark f
    → Marks f id db db'
    → DbIsValid db
    → DbIsValid db'
Marks-IsValid f id db db' m u v = elim u [
  | inl same ↦ Unchanged-IsValid db db' same v
  | inr (r, o) ↦ rw (r, o) (mark-IsValid id f db.requests db.offers m v)
]

abbrev pub dismissed_row : Offer → Offer
dismissed_row o = record o { dismissed_by_seller = true }

abbrev pub buyer_deleted_row : ℕ → Offer → Offer
buyer_deleted_row now o = record o { buyer_deleted_at = some now }

abbrev pub seller_deleted_row : ℕ → Offer → Offer
seller_deleted_row now o = record o { seller_deleted_at = some now }

pub dismiss_path :
    (offer_id seller_id : ℕ) (db : Db)
    → Marks dismissed_row offer_id db (dismiss offer_id seller_id db).1
unfolding dismiss
dismiss_path offer_id seller_id db = ground arith

pub remove_from_listing_path :
    (now offer_id user_id : ℕ) (db : Db)
    → let db' = (remove_from_listing now offer_id user_id db).1 in
      Marks dismissed_row offer_id db db'
      ⊎ Marks (buyer_deleted_row now) offer_id db db'
      ⊎ Marks (seller_deleted_row now) offer_id db db'
unfolding remove_from_listing
remove_from_listing_path now offer_id user_id db = ground arith

pub renew-IsValid :
    (now user_id id : ℕ) (db : Db) → DbIsValid db → DbIsValid (renew now user_id id db).1
renew-IsValid now user_id id db v =
    Updates-IsValid (renew_row now) id db (renew now user_id id db).1 (renew-KeepsStatus now)
      (renew_path now user_id id db) v

pub pause-IsValid :
    (now user_id id : ℕ) (db : Db) → DbIsValid db → DbIsValid (pause now user_id id db).1
pause-IsValid now user_id id db v =
    Updates-IsValid (pause_row now) id db (pause now user_id id db).1 (pause-KeepsStatus now)
      (pause_path now user_id id db) v

pub update-IsValid :
    (env : Env) (cat : Catalogue) (now user_id id : ℕ) (dto : UpdateRequestDto) (db : Db)
    → DbIsValid db
    → DbIsValid (update env cat now user_id id dto db).1
update-IsValid env cat now user_id id dto db v =
    let db' = (update env cat now user_id id dto db).1 in
    elim (update_path env cat now user_id id dto db) [
      | inl same ↦ Unchanged-IsValid db db' same v
      | inr (terms, r, o) ↦
          Updates-IsValid (edited_row now terms) id db db' (edited-KeepsStatus now terms)
            (inr (r, o)) v
    ]

pub remove-IsValid : (user_id id : ℕ) (db : Db) → DbIsValid db → DbIsValid (remove user_id id db).1
remove-IsValid user_id id db v =
    Updates-IsValid deactivate id db (remove user_id id db).1 deactivate-KeepsStatus
      (remove_path user_id id db) v

IsMark-fields :
    {f : Offer → Offer}
    → ((o : Offer) → (f o).request_id ≡ o.request_id)
    → ((o : Offer) → (f o).status ≡ o.status)
    → ((o : Offer) → (f o).deal_completed_at ≡ o.deal_completed_at)
    → ((o : Offer) → (f o).negotiation_ended_at ≡ o.negotiation_ended_at)
    → IsMark f
IsMark-fields r s d e = record { same_request = r; same_status = s; same_deal = d; same_end = e }

pub dismissed-IsMark : IsMark dismissed_row
dismissed-IsMark = IsMark-fields (λ o. refl) (λ o. refl) (λ o. refl) (λ o. refl)

pub buyer_deleted-IsMark : (now : ℕ) → IsMark (buyer_deleted_row now)
buyer_deleted-IsMark now = IsMark-fields (λ o. refl) (λ o. refl) (λ o. refl) (λ o. refl)

pub seller_deleted-IsMark : (now : ℕ) → IsMark (seller_deleted_row now)
seller_deleted-IsMark now = IsMark-fields (λ o. refl) (λ o. refl) (λ o. refl) (λ o. refl)

pub dismiss-IsValid :
    (offer_id seller_id : ℕ) (db : Db) → DbIsValid db → DbIsValid (dismiss offer_id seller_id db).1
dismiss-IsValid offer_id seller_id db v =
    Marks-IsValid dismissed_row offer_id db (dismiss offer_id seller_id db).1 dismissed-IsMark
      (dismiss_path offer_id seller_id db) v

pub remove_from_listing-IsValid :
    (now offer_id user_id : ℕ) (db : Db)
    → DbIsValid db
    → DbIsValid (remove_from_listing now offer_id user_id db).1
remove_from_listing-IsValid now offer_id user_id db v =
    let db' = (remove_from_listing now offer_id user_id db).1 in
    elim (remove_from_listing_path now offer_id user_id db) [
      | inl d ↦ Marks-IsValid dismissed_row offer_id db db' dismissed-IsMark d v
      | inr (inl b) ↦
          Marks-IsValid (buyer_deleted_row now) offer_id db db' (buyer_deleted-IsMark now) b v
      | inr (inr s) ↦
          Marks-IsValid (seller_deleted_row now) offer_id db db' (seller_deleted-IsMark now) s v
    ]
