-- ===== src/Oidc/Issuing/Granted.antt =====
-- allauth/idp/oidc/internal/oauthlib/request_validator.py: the resources of the tokens that are issued
-- stay within those that were granted.
use django_allauth.Prelude.{
  ℕ, ◌≡◌, refl, Bool, true, false, not, ◌&&◌, ◌||◌, Option, none, some, List, [], ◌∷◌, any, ◌==◌,
  Text, text_eq, codes, arith, All, if◌then◌else◌, ap, ◌∙◌, sym, subst, ◌⊎◌, inl, inr, Bool-cases,
}
use django_allauth.Oidc.Results.{
  Result, ok, err, ◌>>=◌, invalid_target, assertion_error, taken_apart,
}
use django_allauth.Oidc.Json.{
  Json, JsonDict, null, text, number, list, dict, dict_set, set_item, or_empty, list_of,
  texts_of-list_of, dict_get-dict_set,
}
use django_allauth.Oidc.Context.{Token, Provider, Request, ValidatorContext}
use django_allauth.Oidc.Uris.{ParseResult}
use django_allauth.Oidc.Resources.{
  listed, is_empty_list, is_contained_by, all_contained, is_resources_subset,
}
use django_allauth.Oidc.Resources.Containment.{is_contained_by-preorder}
use django_allauth.Oidc.Tokens.{
  get_resources, set_resources, texts_or_empty, field_of, with_extra, dict_only,
}
use django_allauth.Oidc.Issuing.{
  BearerToken, with_resources, prep_access_token, prep_refresh_token, refresh_with,
  refreshed_context,
}

listed_texts : (rs : List Text) → texts_or_empty (list (list_of rs)) ≡ rs
listed_texts rs = ap (λ o. elim o [ none ↦ [] | some ts ↦ ts ]) (texts_of-list_of rs)

resources_written :
    (rs : List Text) (t : Token) (extra : Json) {u : Token}
    → (set_item (codes "resources") (list (list_of rs)) extra >>= λ e. ok (with_extra t e)) ≡ ok u
    → get_resources u ≡ rs
unfolding get_resources
resources_written rs t (dict d) {u} h =
    let key = codes "resources" in
    let written : JsonDict = dict_set key (list (list_of rs)) d in
    let e : with_extra t (dict written) ≡ u = cc in
    subst (λ u. texts_or_empty (field_of key u.extra) ≡ rs) e
      (ap texts_or_empty (dict_get-dict_set key key (list (list_of rs)) d) ∙ listed_texts rs)
resources_written rs t null {u} h = cc
resources_written rs t (text x) {u} h = cc
resources_written rs t (number n) {u} h = cc
resources_written rs t (list l) {u} h = cc

-- What `set_resources` stores, `get_resources` reads.
pub get_resources-set_resources :
    (rs : List Text) (t : Token) {u : Token} → set_resources rs t ≡ ok u → get_resources u ≡ rs
unfolding set_resources
get_resources-set_resources rs t h =
    taken_apart (dict_only (or_empty t.extra)) _ h (λ extra made e. resources_written rs t extra e)

with_resources-get :
    (rs : List Text) (t : Token) {u : Token}
    → t.extra ≡ null
    → with_resources rs t ≡ ok u
    → get_resources u ≡ rs
unfolding get_resources
with_resources-get [] t {u} n h =
    let e : t ≡ u = cc in
    subst (λ u. texts_or_empty (field_of (codes "resources") u.extra) ≡ []) e
      (ap (λ x. texts_or_empty (field_of (codes "resources") x)) n)
with_resources-get (r ∷ rs) t {u} n h = get_resources-set_resources (r ∷ rs) t h

module _ (urlparse : Text → ParseResult) where
  -- The resource lies within one of those granted.
  abbrev pub IsCovered : List Text → Text → Type 0
  IsCovered granted r = any (λ g. is_contained_by urlparse r g) granted ≡ true

  IsCovered-more :
      (g : Text) (gs rs : List Text) → All (IsCovered gs) rs → All (IsCovered (g ∷ gs)) rs
  IsCovered-more g gs [] h = tt
  IsCovered-more g gs (r ∷ rs) h = (ground (arith, h.0), IsCovered-more g gs rs h.1)

  covers_itself : (gs : List Text) → All (IsCovered gs) gs
  covers_itself [] = tt
  covers_itself (g ∷ gs) = (
    ground (arith, (is_contained_by-preorder urlparse g g g).0),
    IsCovered-more g gs gs (covers_itself gs),
  )

  all_contained-All :
      (rs gs : List Text) → all_contained urlparse rs gs ≡ true → All (IsCovered gs) rs
  unfolding all_contained
  all_contained-All [] gs h = tt
  all_contained-All (r ∷ rs) gs h = elim (Bool-cases (any (λ g. is_contained_by urlparse r g) gs)) [
    | inl e ↦ (e, all_contained-All rs gs (ground arith))
    | inr e ↦ cc
  ]

  granted_whole :
      (gs : List Text) (base : Token) {t : Token}
      → base.extra ≡ null
      → with_resources gs base ≡ ok t
      → All (IsCovered gs) (get_resources t)
  granted_whole gs base n h =
      subst (All (IsCovered gs)) (sym (with_resources-get gs base n h)) (covers_itself gs)

  granted_part :
      (rs gs : List Text) (base : Token) {t : Token}
      → base.extra ≡ null
      → (if not (all_contained urlparse rs gs) then err invalid_target else with_resources rs base)
        ≡ ok t
      → All (IsCovered gs) (get_resources t)
  granted_part rs gs base n h = elim (Bool-cases (all_contained urlparse rs gs)) [
    | inl e ↦
        subst (All (IsCovered gs)) (sym (with_resources-get rs base n (ground arith)))
          (all_contained-All rs gs e)
    | inr e ↦ cc
  ]

  prepared_within :
      (requested granted : Option (List Text)) (base : Token) {t : Token}
      → base.extra ≡ null
      → (if is_empty_list (listed requested)
          then with_resources (listed granted) base
          else if not (is_resources_subset urlparse requested granted)
          then err invalid_target
          else with_resources (listed requested) base)
        ≡ ok t
      → is_empty_list (listed granted) ≡ false
      → All (IsCovered (listed granted)) (get_resources t)
  unfolding is_resources_subset
  prepared_within none granted base n h f = granted_whole (listed granted) base n h
  prepared_within (some []) granted base n h f = granted_whole (listed granted) base n h
  prepared_within (some (r ∷ rs)) none base n h f = cc
  prepared_within (some (r ∷ rs)) (some []) base n h f = cc
  prepared_within (some (r ∷ rs)) (some (g ∷ gs)) base n h f =
      granted_part (r ∷ rs) (g ∷ gs) base n h

module _ {A B C : Type 0} where
  abbrev chosen : Bool → Bool → Result A → Result A → B → B → C → Result A × B × C
  chosen rotate same rt new rows rows' c =
      if not rotate && same
      then (rt, rows, c)
      else if rotate || not same
      then (new, rows', c)
      else (err assertion_error, rows, c)

  either :
      (rotate same : Bool) (rt new : Result A) (rows rows' : B) (c : C) {t : A}
      → (chosen rotate same rt new rows rows' c).0 ≡ ok t
      → (rt ≡ ok t) ⊎ (new ≡ ok t)
  either true same rt new rows rows' c h = inr h
  either false true rt new rows rows' c h = inl h
  either false false rt new rows rows' c h = inr h

  same_context :
      (rotate same : Bool) (rt new : Result A) (rows rows' : B) (c : C)
      → (chosen rotate same rt new rows rows' c).2 ≡ c
  same_context true same rt new rows rows' c = refl
  same_context false true rt new rows rows' c = refl
  same_context false false rt new rows rows' c = refl

module _ (urlparse : Text → ParseResult) (p : Provider) (now : ℕ) (request : Request) where
  prep_access_token-within :
      (ctx : ValidatorContext) (token : BearerToken) {at : Token}
      → prep_access_token urlparse p now request ctx token ≡ ok at
      → is_empty_list (listed ctx.granted_resources) ≡ false
      → All (IsCovered urlparse (listed ctx.granted_resources)) (get_resources at)
  unfolding prep_access_token
  prep_access_token-within ctx token h f =
      prepared_within urlparse ctx.requested_resources ctx.granted_resources _ refl h f

  -- When a refresh token is presented, the refresh token that is returned or made for it is for the
  -- same resources; and where these are not empty, the access token is for resources that lie within
  -- them, whatever the request asks for.
  pub refreshed_within :
      (rt : Token) (value : Text) (token : BearerToken) (ctx : ValidatorContext) (rows : List Token)
      {t at : Token}
      → ctx.refresh_token ≡ some rt
      → let (r, rows', ctx') = prep_refresh_token urlparse p now request ctx value rows in
        r ≡ ok t
        → prep_access_token urlparse p now request ctx' token ≡ ok at
        → (get_resources t ≡ get_resources rt)
          × (is_empty_list (get_resources rt) ≡ false
              → All (IsCovered urlparse (get_resources rt)) (get_resources at))
  unfolding prep_refresh_token
  refreshed_within rt value token ctx rows {t} {at} used h k =
      let with_ : Option Token → Result Token × List Token × ValidatorContext =
        λ u. refresh_with urlparse p now request u (p.hash_token value) ctx rows in
      let h' = subst (λ u. (with_ u).0 ≡ ok t) used h in
      let k' =
        subst (λ u. prep_access_token urlparse p now request (with_ u).2 token ≡ ok at) used k in
      let ctx' = refreshed_context urlparse p now request rt ctx in
      let k'' : prep_access_token urlparse p now request ctx' token ≡ ok at =
        subst (λ c. prep_access_token urlparse p now request c token ≡ ok at)
          (same_context p.settings.rotate_refresh_token (p.hash_token value == rt.hash) _ _ _ _
            ctx')
          k' in
      (
        elim (either p.settings.rotate_refresh_token (p.hash_token value == rt.hash) _ _ _ _ ctx'
            h') [
              | inl same ↦ let e : t ≡ rt = cc in ap get_resources e
              | inr new ↦ with_resources-get (get_resources rt) _ refl new
            ],
        λ f. prep_access_token-within ctx' token k'' f,
      )
