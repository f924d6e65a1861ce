-- ===== src/Closing/Cash.antt =====
-- What the submission of a day computes (closing.ts, `submit`).
use cafe_retail_software.Prelude.Int.{pos, ◌-ℤ◌}
use cafe_retail_software.Documents.{Closure, submitted}
use cafe_retail_software.Money.{value, Text, scaled, decimal}
use cafe_retail_software.Result.{ok, ok-injective}
use cafe_retail_software.Closing.{tally, Collected, tally_one, is_cash, submit_record}
use cafe_retail_software.Prelude.{
  Bool, ℕ, List, not, ◌≡◌, ◌∷◌, sum_of, ◌&&◌, [], keep_all, ◌+◌, ◌==◌, true, if◌then◌else◌,
  Bool-cases, false, inl, arith, inr, some, refl,
}
use cafe_retail_software.Result.Pure.{>>=-eq-ok, ran}

-- The payments of the day that are no credit, in cash or not.
abbrev pub counted_in : Bool → ℕ → Collected → Bool
counted_in in_cash day p =
    not p.is_credit_marker
    && p.business_date == day
    && (if in_cash then is_cash p.mode_type else not (is_cash p.mode_type))

abbrev pub sum_in : Bool → ℕ → List Collected → ℕ
sum_in in_cash day ps = sum_of (λ p. value p.amount) (keep_all (counted_in in_cash day) ps)

tally_one_sums :
    (day : ℕ) (sums : ℕ × ℕ) (p : Collected) {sums' : ℕ × ℕ}
    → tally_one day sums p ≡ ok sums'
    → (sums'.0 ≡ sums.0 + sum_in true day (p ∷ [])) × (sums'.1 ≡ sums.1 + sum_in false day (p ∷ []))
tally_one_sums day sums p h = ground arith

sum_in-cons :
    (in_cash : Bool) (day : ℕ) (p : Collected) (ps : List Collected)
    → sum_in in_cash day (p ∷ ps) ≡ sum_in in_cash day (p ∷ []) + sum_in in_cash day ps
sum_in-cons in_cash day p ps = elim (Bool-cases (counted_in in_cash day p)) [
  | inl e ↦ rw e (omega arith)
  | inr e ↦ rw e (omega arith)
]

pub tally_sums :
    (day : ℕ) (sums : ℕ × ℕ) (ps : List Collected) {sums' : ℕ × ℕ}
    → tally day sums ps ≡ ok sums'
    → (sums'.0 ≡ sums.0 + sum_in true day ps) × (sums'.1 ≡ sums.1 + sum_in false day ps)
unfolding tally
tally_sums day sums [] h =
    let same = ok-injective h in (rw (← same) (omega arith), rw (← same) (omega arith))
tally_sums day sums (p ∷ ps) h = elim (>>=-eq-ok (tally_one day sums p) _ h) [
  | ran mid one rest ↦ omega (
    arith,
    tally_one_sums day sums p one,
    tally_sums day mid ps rest,
    sum_in-cons true day p ps,
    sum_in-cons false day p ps,
  )
]

-- A submitted record shows the cash of the day's payments and the rest of them, expects the opening cash and
-- the cash, and reports as the variance what was counted less what is expected.
pub record IsCounted (counted_cash : Text) (payments : List Collected) (before after : Closure)
    : Type 0 where
  pub opening : ℕ
  pub counted : ℕ
  pub opens : scaled before.opening_cash ≡ ok opening
  pub counts : scaled counted_cash ≡ ok counted
  pub cash_shown :
      decimal (pos (sum_in true before.business_date payments)) ≡ ok after.cash_collections
  pub rest_shown :
      decimal (pos (sum_in false before.business_date payments)) ≡ ok after.non_cash_total
  pub expected_shown :
      decimal (pos (opening + sum_in true before.business_date payments)) ≡ ok after.expected_cash
  pub variance : Text
  pub variance_set : after.variance ≡ some variance
  pub variance_shown :
      decimal (pos counted -ℤ pos (opening + sum_in true before.business_date payments))
      ≡ ok variance
  pub now_submitted : after.status ≡ submitted
  pub same_day : after.business_date ≡ before.business_date
  pub same_opening : after.opening_cash ≡ before.opening_cash
  pub same_id : after.id ≡ before.id
  pub same_company : after.company_id ≡ before.company_id
  pub same_branch : after.branch_id ≡ before.branch_id

pub submit_record-IsCounted :
    (user : ℕ) (counted_cash : Text) (payments : List Collected) (r : Closure) {r' : Closure}
    → submit_record user counted_cash payments r ≡ ok r'
    → IsCounted counted_cash payments r r'
unfolding submit_record
submit_record-IsCounted user counted_cash payments r h =
    elim (>>=-eq-ok (tally r.business_date (0, 0) payments) _ h) [
      | ran sums hs h1 ↦ elim (>>=-eq-ok (scaled counted_cash) _ h1) [
        | ran counted hc h2 ↦ elim (>>=-eq-ok (scaled r.opening_cash) _ h2) [
          | ran opening ho h3 ↦ elim (>>=-eq-ok (decimal (pos sums.0)) _ h3) [
            | ran cash_text h4 h5 ↦ elim (>>=-eq-ok (decimal (pos sums.1)) _ h5) [
              | ran rest_text h6 h7 ↦ elim (>>=-eq-ok (decimal (pos (opening + sums.0))) _ h7) [
                | ran expected_text h8 h9 ↦ elim (>>=-eq-ok (decimal (pos counted)) _ h9) [
                  | ran counted_text ha hb ↦
                      elim (>>=-eq-ok (decimal (pos counted -ℤ pos (opening + sums.0))) _ hb) [
                        | ran variance hv he ↦
                            let (in_cash, rest) = tally_sums r.business_date (0, 0) payments hs in
                            let e : sum_in true r.business_date payments ≡ sums.0 = omega arith in
                            let e' : sum_in false r.business_date payments ≡ sums.1 = omega arith in
                            let same = ok-injective he in
                            rw (← same) (record {
                              opening = opening;
                              counted = counted;
                              opens = ho;
                              counts = hc;
                              cash_shown = rw e h4;
                              rest_shown = rw e' h6;
                              expected_shown = rw e h8;
                              variance = variance;
                              variance_set = refl;
                              variance_shown = rw e hv;
                              now_submitted = refl;
                              same_day = refl;
                              same_opening = refl;
                              same_id = refl;
                              same_company = refl;
                              same_branch = refl;
                            })
                      ]
                ]
              ]
            ]
          ]
        ]
      ]
    ]
