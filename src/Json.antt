-- ===== src/Json.antt =====
-- What `response.json()` and `request.json()` return, and the accesses of the standard library
-- that the code makes: `.get`, truth, `str`, `int`. A number that is not an integer is the text that
-- `str` gives of it.
use vip_channel_management_s.Prelude.{
  ◌||◌, not, Bool, true, false, Text, [], ◌∷◌, codes, eq_text, if◌then◌else◌, suc, zero,
}
use vip_channel_management_s.Prelude.Int.{ℤ, pos, negsuc}
use vip_channel_management_s.Errors.{Error, Result, ok, err}

mutual
  pub data Json : Type 0 where
    null : Json
    bool : Bool → Json
    int : ℤ → Json
    float : Text → Json
    str : Text → Json
    arr : Elements → Json
    obj : Members → Json

  pub data Elements : Type 0 where
    nil : Elements
    item : Json → Elements → Elements

  pub data Members : Type 0 where
    end : Members
    member : Text → Json → Members → Members

-- a dict holds each key once
unfoldable pub find : Text → Members → Json
find key end = null
find key (member k v rest) = let found = find key rest in if eq_text k key then v else found

-- `value.get(key)`, which gives None where there is no such key
unfoldable pub get : Text → Json → Result Json
unfolding find
get key (obj members) = ok (find key members)
get key _ = err Error.attribute_error

-- `bool(value)`
unfoldable pub truth : Json → Bool
truth null = false
truth (bool b) = b
truth (int (pos zero)) = false
truth (int (pos (suc n))) = true
truth (int (negsuc n)) = true
truth (float text) = not (eq_text text (codes "0.0") || eq_text text (codes "-0.0"))
truth (str []) = false
truth (str (c ∷ cs)) = true
truth (arr nil) = false
truth (arr (item v vs)) = true
truth (obj end) = false
truth (obj (member k v rest)) = true

-- `value or default`
unfoldable pub or_default : Json → Json → Json
unfolding truth
or_default value default = if truth value then value else default
