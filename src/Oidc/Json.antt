-- ===== src/Oidc/Json.antt =====
-- Values of Django's JSONField, as idp/oidc/models.py reads and writes them.
use django_allauth.Prelude.{
  ℕ, Option, none, some, List, [], ◌∷◌, if◌then◌else◌, ◌==◌, Text, text_eq, ◌≡◌, refl, ap, arith,
}
use django_allauth.Oidc.Results.{Result, ok, err, type_error}

mutual
  pub data Json : Type 0 where
    null : Json
    text : Text → Json
    number : ℕ → Json
    list : JsonList → Json
    dict : JsonDict → Json

  pub data JsonList : Type 0 where
    list_end : JsonList
    item : Json → JsonList → JsonList

  pub data JsonDict : Type 0 where
    dict_end : JsonDict
    entry : Text → Json → JsonDict → JsonDict

-- `d.get(k)`: a missing key and a null are both `None`.
unfoldable pub dict_get : Text → JsonDict → Json
dict_get k dict_end = null
dict_get k (entry j v d) = if j == k then v else dict_get k d

unfoldable pub dict_set : Text → Json → JsonDict → JsonDict
dict_set k v dict_end = entry k v dict_end
dict_set k v (entry j w d) = if j == k then entry j v d else entry j w (dict_set k v d)

-- `data[k] = v`
abbrev pub set_item : Text → Json → Json → Result Json
set_item k v (dict d) = ok (dict (dict_set k v d))
set_item k v null = err type_error
set_item k v (text t) = err type_error
set_item k v (number n) = err type_error
set_item k v (list l) = err type_error

-- `if data is None: data = {}`
abbrev pub or_empty : Json → Json
or_empty null = dict dict_end
or_empty (text t) = text t
or_empty (number n) = number n
or_empty (list l) = list l
or_empty (dict d) = dict d

abbrev with_text : Json → Option (List Text) → Option (List Text)
with_text (text t) (some ts) = some (t ∷ ts)
with_text (text t) none = none
with_text null rest = none
with_text (number n) rest = none
with_text (list l) rest = none
with_text (dict d) rest = none

-- The texts of a list in which all are texts.
unfoldable pub texts_of : JsonList → Option (List Text)
texts_of list_end = some []
texts_of (item v l) = with_text v (texts_of l)

abbrev pub list_of : List Text → JsonList
list_of [] = list_end
list_of (t ∷ ts) = item (text t) (list_of ts)

pub texts_of-list_of : (ts : List Text) → texts_of (list_of ts) ≡ some ts
unfolding texts_of
texts_of-list_of [] = refl
texts_of-list_of (t ∷ ts) = ap (with_text (text t)) (texts_of-list_of ts)

pub dict_get-dict_set :
    (k j : Text) (v : Json) (d : JsonDict)
    → dict_get j (dict_set k v d) ≡ (if k == j then v else dict_get j d)
unfolding dict_get dict_set
dict_get-dict_set k j v dict_end = refl
dict_get-dict_set k j v (entry i w d) =
    ground
      (arith, text_eq.agrees k j, text_eq.agrees i k, text_eq.agrees i j, dict_get-dict_set k j v d)
