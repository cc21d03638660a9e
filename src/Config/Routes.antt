-- ===== src/Config/Routes.antt =====
-- Which route lists are accepted, and what they become.
use myflowhub_clipboardnode.Base.{
  ℕ, suc, ◌≤◌, ◌+◌, ◌≡◌, refl, ap, ◌∙◌, ◌↔◌, Result-cases, false, some, List, [], ◌∷◌, ◌++◌, map,
  Text, arith, is_empty, trim_space, length, ok, Bool-cases, inl, inr,
}
use myflowhub_clipboardnode.Base.Strings.Laws.{trim_space_idem}
use myflowhub_clipboardnode.Dedupe.{member}
use myflowhub_clipboardnode.Config.{
  TopicRoute, check_routes, normalize_topic_routes, max_topic_routes,
}

abbrev pub trim_route : TopicRoute → TopicRoute
trim_route r = record r { topic = trim_space r.topic }

-- Trimmed, each topic is non-empty and none of those before it.
abbrev pub AllFresh : List Text → List TopicRoute → Type 0
AllFresh seen [] = Unit {0}
AllFresh seen (r ∷ rs) =
    (is_empty (trim_space r.topic) ≡ false)
    × (member (trim_space r.topic) seen ≡ false)
    × AllFresh (seen ++ trim_space r.topic ∷ []) rs

pub check_routes-ok :
    (i : ℕ) (seen : List Text) (rs : List TopicRoute)
    → AllFresh seen rs
    → check_routes i seen rs ≡ ok (map trim_route rs)
unfolding check_routes
check_routes-ok i seen [] a = refl
check_routes-ok i seen (r ∷ rs) a =
    rw (a.0, a.1, check_routes-ok (i + 1) (seen ++ trim_space r.topic ∷ []) rs a.2) refl

check_routes-AllFresh :
    (i : ℕ) (seen : List Text) (rs : List TopicRoute) {out : List TopicRoute}
    → check_routes i seen rs ≡ ok out
    → AllFresh seen rs
unfolding check_routes
check_routes-AllFresh i seen [] h = tt
check_routes-AllFresh i seen (r ∷ rs) {out} h =
    elim (Result-cases (check_routes (i + 1) (seen ++ trim_space r.topic ∷ []) rs)) [
      | inl (rest, e) ↦
          let later = check_routes-AllFresh (i + 1) (seen ++ trim_space r.topic ∷ []) rs e in
          ground (
            arith,
            later,
            Bool-cases (is_empty (trim_space r.topic)),
            Bool-cases (member (trim_space r.topic) seen),
          )
      | inr (e, failed) ↦ absurd (ground arith)
    ]

AllFresh-map_trim :
    (seen : List Text) (rs : List TopicRoute) → AllFresh seen rs → AllFresh seen (map trim_route rs)
AllFresh-map_trim seen [] a = tt
AllFresh-map_trim seen (r ∷ rs) a =
    rw trim_space_idem (a.0, a.1, AllFresh-map_trim (seen ++ trim_space r.topic ∷ []) rs a.2)

map_trim_idem : (rs : List TopicRoute) → map trim_route (map trim_route rs) ≡ map trim_route rs
map_trim_idem [] = refl
map_trim_idem (r ∷ rs) = rw (trim_space_idem, map_trim_idem rs) refl

length-map_trim : (rs : List TopicRoute) → length (map trim_route rs) ≡ length rs
length-map_trim [] = refl
length-map_trim (r ∷ rs) = ap suc (length-map_trim rs)

-- What is accepted: between 1 and 32 routes, whose trimmed topics are non-empty and distinct.
pub record IsAccepted (rs : List TopicRoute) : Type 0 where
  pub some_route : 1 ≤ length rs
  pub not_too_many : length rs ≤ max_topic_routes
  pub fresh : AllFresh [] rs

normalize-of_IsAccepted :
    (legacy : Text) (rs : List TopicRoute)
    → IsAccepted rs
    → normalize_topic_routes legacy (some rs) ≡ ok (map trim_route rs)
unfolding normalize_topic_routes
normalize-of_IsAccepted legacy rs a = ground (arith, check_routes-ok 0 [] rs a.fresh)

IsAccepted-of_normalize :
    (legacy : Text) (rs : List TopicRoute) {out : List TopicRoute}
    → normalize_topic_routes legacy (some rs) ≡ ok out
    → IsAccepted rs
unfolding normalize_topic_routes
IsAccepted-of_normalize legacy rs {out} h = record {
  some_route = ground arith;
  not_too_many = ground arith;
  fresh = check_routes-AllFresh 0 [] rs {out = out} (ground arith);
}

-- An explicit route list is accepted exactly when it has 1 to 32 routes with non-empty, distinct
-- trimmed topics; the result is then the list in its order with every topic trimmed and the
-- direction flags unchanged, whatever the legacy topic is.
pub normalize_topic_routes_iff :
    (legacy : Text) (rs out : List TopicRoute)
    → (normalize_topic_routes legacy (some rs) ≡ ok out)
      ↔ (IsAccepted rs × (out ≡ map trim_route rs))
normalize_topic_routes_iff legacy rs out = (
  (λ h.
      let a = IsAccepted-of_normalize legacy rs h in
      (a, cc (h, normalize-of_IsAccepted legacy rs a))),
  λ (a, e). rw e (normalize-of_IsAccepted legacy rs a),
)

pub normalize_topic_routes-some_idem :
    (legacy other : Text) (rs : List TopicRoute) {out : List TopicRoute}
    → normalize_topic_routes legacy (some rs) ≡ ok out
    → normalize_topic_routes other (some out) ≡ ok out
normalize_topic_routes-some_idem legacy other rs {out} h =
    let (a, e) = (normalize_topic_routes_iff legacy rs out).0 h in
    rw e (
      normalize-of_IsAccepted other (map trim_route rs) (record {
        some_route = omega (arith, length-map_trim rs, a.some_route);
        not_too_many = omega (arith, length-map_trim rs, a.not_too_many);
        fresh = AllFresh-map_trim [] rs a.fresh;
      })
      ∙ ap ok (map_trim_idem rs))
