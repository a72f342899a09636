-- ===== src/History/Created.antt =====
-- What an insertion of a message adds.
use lens_chat_service.Prelude.{
  ◌≡◌, sym, subst, inl, inr, List, [], ◌∷◌, ◌++◌, ok, err, arith, IsIn, IsIn-concat,
}
use lens_chat_service.Schema.{Message}
use lens_chat_service.Mongo.{
  Reply, Inserted, IsUnique, IsUnique-concat, no_documents, duplicate_key, driver_failed,
}
use lens_chat_service.Store.{message_clash}
use lens_chat_service.History.Next.{MessageNext, MessageNext-refl}
use lens_chat_service.History.Collections.{Traced, Traced-eq}
use lens_chat_service.History.Evolution.{IsFirst, IsNew}

apart :
    (d x : Message) (docs : List Message)
    → IsUnique message_clash (docs ++ d ∷ [])
    → IsIn x docs
    → ¬ (x.id ≡ d.id)
unfolding message_clash
apart d x docs unique i e =
    let no_clash = IsUnique-concat message_clash docs d x unique i in ground (arith, no_clash, e)

added-IsNew :
    (d : Message) (docs ds : List Message)
    → IsFirst d
    → IsUnique message_clash ds
    → ds ≡ docs ++ d ∷ []
    → Traced MessageNext (IsNew docs) docs ds
added-IsNew d docs ds first unique e y i = elim (IsIn-concat y d docs (subst (IsIn y) e i)) [
  | inl k ↦ (y, inl k, MessageNext-refl y)
  | inr q ↦ (
    d,
    inr (record {
      first = first;
      unknown = λ x j. apart d x docs (subst (IsUnique message_clash) e unique) j;
    }),
    subst (MessageNext d) (sym q) (MessageNext-refl d),
  )
]

-- The unique index on the id keeps a message out whose id is there.
pub Inserted-IsNew :
    (d : Message) (docs ds : List Message) (r : Reply (Unit {0}))
    → IsFirst d
    → IsUnique message_clash ds
    → Inserted message_clash d docs r ds
    → Traced MessageNext (IsNew docs) docs ds
Inserted-IsNew d docs ds (ok _) first unique e = added-IsNew d docs ds first unique e
Inserted-IsNew d docs ds (err no_documents) first unique e =
    Traced-eq MessageNext MessageNext-refl (IsNew docs) docs ds e
Inserted-IsNew d docs ds (err duplicate_key) first unique (e, _) =
    Traced-eq MessageNext MessageNext-refl (IsNew docs) docs ds e
Inserted-IsNew d docs ds (err (driver_failed n)) first unique (inl e) =
    Traced-eq MessageNext MessageNext-refl (IsNew docs) docs ds e
Inserted-IsNew d docs ds (err (driver_failed n)) first unique (inr e) =
    added-IsNew d docs ds first unique e
