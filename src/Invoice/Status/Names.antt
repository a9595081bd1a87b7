-- ===== src/Invoice/Status/Names.antt =====
-- What the names of the statuses in the database say.
use angavu_intelligence_back.Common.{
  ◌≡◌, refl, Bool, true, false, ◌||◌, String, str_eq, str_eq_iff, Bool-cases, inl, inr, subst, sym,
}
use angavu_intelligence_back.Invoice.Status.{
  InvoiceStatus, draft, issued, paid, overdue, void, as_str, from_str,
}

abbrev pub settled : InvoiceStatus → Bool
settled paid = true
settled void = true
settled _ = false

abbrev pub is_issued : InvoiceStatus → Bool
is_issued issued = true
is_issued _ = false

-- A text is the name of a status, or none of the names.
data Named (s : String) : Type 0 where
  known : (t : InvoiceStatus) → s ≡ as_str t → Named s
  unknown :
      str_eq s "draft" ≡ false
      → str_eq s "issued" ≡ false
      → str_eq s "paid" ≡ false
      → str_eq s "overdue" ≡ false
      → str_eq s "void" ≡ false
      → Named s

named : (s : String) → Named s
unfolding as_str
named s = elim (Bool-cases (str_eq s "draft")) [
  | inl e ↦ known draft ((str_eq_iff s "draft").0 e)
  | inr a ↦ elim (Bool-cases (str_eq s "issued")) [
    | inl e ↦ known issued ((str_eq_iff s "issued").0 e)
    | inr b ↦ elim (Bool-cases (str_eq s "paid")) [
      | inl e ↦ known paid ((str_eq_iff s "paid").0 e)
      | inr c ↦ elim (Bool-cases (str_eq s "overdue")) [
        | inl e ↦ known overdue ((str_eq_iff s "overdue").0 e)
        | inr d ↦ elim (Bool-cases (str_eq s "void")) [
          | inl e ↦ known void ((str_eq_iff s "void").0 e)
          | inr e ↦ unknown a b c d e
        ]
      ]
    ]
  ]
]

abbrev Says : String → Type 0
Says s =
    (settled (from_str s) ≡ (str_eq s "paid" || str_eq s "void"))
    × (is_issued (from_str s) ≡ str_eq s "issued")

all_names : (t : InvoiceStatus) → Says (as_str t)
unfolding from_str as_str
all_names draft = (refl, refl)
all_names issued = (refl, refl)
all_names paid = (refl, refl)
all_names overdue = (refl, refl)
all_names void = (refl, refl)

says : (s : String) → Says s
unfolding from_str
says s = elim (named s) [
  | known t e ↦ subst Says (sym e) (all_names t)
  | unknown a b c d e ↦ (rw (a, b, c, d, e) refl, rw (a, b, c, d, e) refl)
]

pub settled-paid : (s : String) → settled (from_str s) ≡ (str_eq s "paid" || str_eq s "void")
settled-paid s = (says s).0

pub is_issued-issued : (s : String) → is_issued (from_str s) ≡ str_eq s "issued"
is_issued-issued s = (says s).1
