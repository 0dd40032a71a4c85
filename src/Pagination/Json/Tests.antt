-- ===== src/Pagination/Json/Tests.antt =====
-- The theorem on links at a request that asks for more than the page.
use golang_service.Prelude.{◌≡◌, refl, ap, ◌∙◌, String, some, if◌then◌else◌, arith}
use golang_service.Prelude.Int.{pos, ◌+ℤ◌, ◌-ℤ◌}
use golang_service.Go.Int64.{wrap}
use golang_service.Go.Decimal.{itoa}
use golang_service.Prelude.Text.{str_eq, eq_iff}
use golang_service.Http.{Url}
use golang_service.Http.Fixtures.{url}
use golang_service.Pagination.Json.{Codec, Json, marshal_json}
use golang_service.Pagination.Json.Targets.{Laws}
use golang_service.Pagination.Json.Leads.{Gets, to_next, Leads, after, marshal_json-Leads}

-- A text, with an end that can be found, before another one.
mark : String → String → String
mark String.[] rest = String.◌∷◌ "0" rest
mark (String.◌∷◌ c s) rest = String.◌∷◌ "1" (String.◌∷◌ c (mark s rest))

unmark : String → String × String
unmark String.[] = ("", "")
unmark (String.◌∷◌ c String.[]) = ("", "")
unmark (String.◌∷◌ c (String.◌∷◌ d s)) =
    let (a, b) = unmark s in
    if str_eq (String.◌∷◌ c "") "0" then ("", String.◌∷◌ d s) else (String.◌∷◌ d a, b)

unmark-mark : (s rest : String) → unmark (mark s rest) ≡ (s, rest)
unfolding mark unmark
unmark-mark String.[] String.[] = refl
unmark-mark String.[] (String.◌∷◌ c rest) = refl
unmark-mark (String.◌∷◌ c s) rest =
    ap (λ (r : String × String). (String.◌∷◌ c r.0, r.1)) (unmark-mark s rest)

-- the page, the limit, and one value more
abbrev Three : Type 0
Three = String × String × String

abbrev set_three : String → String → Three → Three
set_three k v (p, l, r) =
    if str_eq k "page" then (v, l, r) else if str_eq k "limit" then (p, v, r) else (p, l, v)

abbrev get_three : String → Three → String
get_three k (p, l, r) = if str_eq k "page" then p else if str_eq k "limit" then l else r

abbrev read_three : String → Three
read_three s = let (p, t) = unmark s in let (l, r) = unmark t in (p, l, r)

abbrev three_values : Codec Three
three_values = record {
  query = read_three;
  encode = λ (p, l, r). mark p (mark l r);
  set_value = set_three;
  get_value = get_three;
  show_url = λ u. u.raw_query;
}

set_twice : (k v w : String) (q : Three) → set_three k v (set_three k w q) ≡ set_three k v q
set_twice k v w q = ground arith

read_back : (q : Three) → read_three (mark q.0 (mark q.1 q.2)) ≡ q
read_back (p, l, r) =
    ap (λ (m : String × String). (m.0, (unmark m.1).0, (unmark m.1).1)) (unmark-mark p (mark l r))
    ∙ ap (λ (m : String × String). (p, m.0, m.1)) (unmark-mark l r)

three_values-Laws : Laws three_values
three_values-Laws = record {
  overrides = λ k v w q. set_twice k v w q;
  commutes = λ v w q. refl;
  finds = λ v q. refl;
  reads = λ q. read_back q;
}

three_values-Gets : Gets three_values
three_values-Gets = record {
  limit_found = λ v q. refl;
  page_leaves = λ k v q n. ground (arith, eq_iff k "page", n);
  limit_leaves = λ k v q n. ground (arith, eq_iff k "limit", n);
}

abbrev fifth : Json
fifth = record {
  paginator = record {
    page_number = pos 5;
    pages_total = some (pos 9);
    items_per_page = pos 20;
    items_per_page_limit = pos 50;
    items_total = some (pos 170);
  };
  host = "example.com";
}

-- a request with the value `blue` under another key
abbrev asked_for : Url
asked_for = record url { raw_query = mark "5" (mark "20" "blue") }

next_link : String
next_link = mark "6" (mark "20" "blue")

marshal_json-Leads_example : Leads three_values fifth asked_for next_link (pos 6)
unfolding marshal_json next_link mark unmark after itoa wrap ◌+ℤ◌ ◌-ℤ◌
marshal_json-Leads_example =
    marshal_json-Leads three_values three_values-Laws three_values-Gets fifth asked_for 1 next_link
      (pos 6) (to_next refl refl)
