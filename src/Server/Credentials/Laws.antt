-- ===== src/Server/Credentials/Laws.antt =====
-- What the server reads (src/main/java/controller/Users.java) of what the client writes with `$.param`
-- (src/main/js/modules/users.js and settings.js).
use mathlib.Core.Bool.{true≢false}
use gl_tomsxp.Common.{
  ◌∙◌, any-append, ◌≡◌, refl, ap, String, Char, Option, none, some, Bool, true, false, List, [],
  ◌∷◌, ◌++◌, any, if◌then◌else◌, truthy, chars, map, arith, ◌==◌, All, ◌&&◌,
}
use gl_tomsxp.Client.{Json, json}
use gl_tomsxp.Client.Query.{pieces, ampersand, equals, Lacks, Lacks-cons, Lacks-append}
use gl_tomsxp.Server.Credentials.{trim, split, behind_equals, read_credentials, read_passwords}
use gl_tomsxp.Users.{credentials}
use gl_tomsxp.Settings.{Fields}
use gl_tomsxp.Session.Moving.{password_body}

abbrev pub is_nil : List Char → Bool
is_nil [] = true
is_nil (c ∷ s) = false

-- `encodeURIComponent` as it is documented: the signs that part the fields are escaped, and a text that
-- is not empty does not become empty.
pub record Escape : Type 0 where
  pub escape : String → List Char
  pub ampersands : (t : String) → Lacks ampersand (escape t)
  pub equal_signs : (t : String) → Lacks equals (escape t)
  pub blank : (t : String) → is_nil (escape t) ≡ (t == "")

-- Cutting a text.
pieces-Lacks : (p : Char → Bool) (s : List Char) → Lacks p s → pieces p s ≡ s ∷ []
pieces-Lacks p [] h = refl
pieces-Lacks p (c ∷ s) h =
    let (other, rest) = Lacks-cons p c s h in rw (other, pieces-Lacks p s rest) refl

pieces-append :
    (p : Char → Bool) (s : List Char) (c : Char) (t : List Char)
    → Lacks p s
    → p c ≡ true
    → pieces p (s ++ c ∷ t) ≡ s ∷ pieces p t
pieces-append p [] c t h k = rw k refl
pieces-append p (d ∷ s) c t h k =
    let (other, rest) = Lacks-cons p d s h in rw (other, pieces-append p s c t rest k) refl

any_at :
    (p : Char → Bool) (s : List Char) (c : Char) (t : List Char)
    → p c ≡ true
    → any p (s ++ c ∷ t) ≡ true
any_at p s c t k = ground (arith, any-append p s (c ∷ t), k)

trim-cons : (s : List Char) (ss : List (List Char)) → is_nil s ≡ false → trim (s ∷ ss) ≡ s ∷ trim ss
trim-cons [] ss h = absurd (true≢false h)
trim-cons (c ∷ s) ss h = refl

split_of_any : (p : Char → Bool) (s : List Char) → any p s ≡ true → split p s ≡ trim (pieces p s)
split_of_any p s h = rw h refl

-- A field is cut into its name and its value; one without a value has no second piece.
behind_equals-append :
    (n v : List Char)
    → Lacks equals n
    → is_nil n ≡ false
    → Lacks equals v
    → behind_equals (n ++ "=" ∷ v) ≡ (if is_nil v then none else some v)
behind_equals-append n [] h m k =
    rw (any_at equals n "=" [] refl, pieces-append equals n "=" [] h refl, trim-cons n ([] ∷ []) m)
      refl
behind_equals-append n (c ∷ v) h m k =
    rw
      (
        any_at equals n "=" (c ∷ v) refl,
        pieces-append equals n "=" (c ∷ v) h refl,
        pieces-Lacks equals (c ∷ v) k,
        trim-cons n ((c ∷ v) ∷ []) m,
      )
      refl

module _ (e : Escape) where
  open e use {escape, ampersands, equal_signs, blank}

  -- A value that is missing is written as nothing.
  abbrev pub written : Option String → List Char
  written none = []
  written (some t) = escape t

  abbrev pub pair : String × Option String → List Char
  pair (name, v) = chars name ++ "=" ∷ written v

  abbrev named : String × Option String → String × Json
  named (name, v) = (name, json v)

  -- `$.param` as it is documented: the fields in their order, parted by "&".
  abbrev pub Writes : (List (String × Json) → List Char) → Type 0
  Writes param =
      ((f : String × Option String) → param (named f ∷ []) ≡ pair f)
      × ((f g : String × Option String) (fs : List (String × Option String))
          → param (named f ∷ named g ∷ map named fs)
            ≡ pair f ++ "&" ∷ param (named g ∷ map named fs))

  -- The name of a field parts nothing.
  abbrev IsName : String × Option String → Type 0
  IsName (name, v) =
      Lacks ampersand (chars name) × Lacks equals (chars name) × (is_nil (chars name) ≡ false)

  written-blank : (v : Option String) → is_nil (written v) ≡ (if truthy v then false else true)
  written-blank none = refl
  written-blank (some t) = ground (arith, blank t)

  written-ampersands : (v : Option String) → Lacks ampersand (written v)
  written-ampersands none = refl
  written-ampersands (some t) = ampersands t

  written-equal_signs : (v : Option String) → Lacks equals (written v)
  written-equal_signs none = refl
  written-equal_signs (some t) = equal_signs t

  pair-nil : (f : String × Option String) → is_nil (pair f) ≡ false
  pair-nil (name, v) = starts (chars name)
    where
      starts : (s : List Char) → is_nil (s ++ "=" ∷ written v) ≡ false
      starts [] = refl
      starts (c ∷ s) = refl

  pair-ampersand : (f : String × Option String) → IsName f → Lacks ampersand (pair f)
  pair-ampersand (name, v) h =
      Lacks-append ampersand (chars name) ("=" ∷ written v) h.0
        (ground (arith, written-ampersands v))

  -- The value of a field, or nothing where it is blank.
  behind_equals-pair :
      (f : String × Option String)
      → IsName f
      → behind_equals (pair f) ≡ (if truthy f.1 then some (written f.1) else none)
  behind_equals-pair (name, v) (h, k, m) =
      behind_equals-append (chars name) (written v) k m (written-equal_signs v)
      ∙ ground (arith, written-blank v)

  module _ (param : List (String × Json) → List Char) (w : Writes param) where
    pieces-param :
        (f : String × Option String) (fs : List (String × Option String))
        → IsName f
        → All IsName fs
        → trim (pieces ampersand (param (named f ∷ map named fs))) ≡ pair f ∷ map pair fs
    pieces-param f [] h hs =
        rw
          (
            w.0 f,
            pieces-Lacks ampersand (pair f) (pair-ampersand f h),
            trim-cons (pair f) [] (pair-nil f),
          )
          refl
    pieces-param f (g ∷ fs) h (k, hs) =
        rw
          (
            w.1 f g fs,
            pieces-append ampersand (pair f) "&" (param (named g ∷ map named fs))
                (pair-ampersand f h) refl,
            trim-cons (pair f) (pieces ampersand (param (named g ∷ map named fs))) (pair-nil f),
            pieces-param g fs k hs,
          )
          refl

    split-param :
        (f : String × Option String) (fs : List (String × Option String))
        → IsName f
        → All IsName fs
        → split ampersand (param (named f ∷ map named fs)) ≡ pair f ∷ map pair fs
    split-param f [] h hs = rw (w.0 f, pair-ampersand f h) refl
    split-param f (g ∷ fs) h hs =
        split_of_any ampersand (param (named f ∷ named g ∷ map named fs)) (
          ap (any ampersand) (w.1 f g fs)
          ∙ any_at ampersand (pair f) "&" (param (named g ∷ map named fs)) refl)
        ∙ pieces-param f (g ∷ fs) h hs

    -- The server reads of the client's login and subscription the name and the password, each as it is
    -- escaped, if neither is blank, and throws if one is.
    pub read_credentials-param :
        (name password : Option String)
        → read_credentials (param (credentials name password))
          ≡ (if truthy name && truthy password then some (written name, written password) else none)
    unfolding read_credentials
    read_credentials-param name password =
        let f : String × Option String = ("login", name) in
        let g : String × Option String = ("password", password) in
        let hf : IsName f = (refl, refl, refl) in
        let hg : IsName g = (refl, refl, refl) in
        rw (split-param f (g ∷ []) hf (hg, tt), behind_equals-pair f hf, behind_equals-pair g hg)
          (ground arith)

    -- The server reads of the client's change of the password the three passwords, each as it is escaped,
    -- if none is blank, and throws if one is.
    pub read_passwords-param :
        (f : Fields)
        → read_passwords (param (password_body f)) ≡ (
            if truthy f.previous && (truthy f.pass1 && truthy f.pass2)
            then some (written f.previous, (written f.pass1, written f.pass2))
            else none)
    unfolding read_passwords
    read_passwords-param f =
        let a : String × Option String = ("password", f.previous) in
        let b : String × Option String = ("passwordNew", f.pass1) in
        let c : String × Option String = ("passwordConfirm", f.pass2) in
        let ha : IsName a = (refl, refl, refl) in
        let hb : IsName b = (refl, refl, refl) in
        let hc : IsName c = (refl, refl, refl) in
        rw
          (
            split-param a (b ∷ c ∷ []) ha (hb, (hc, tt)),
            behind_equals-pair a ha,
            behind_equals-pair b hb,
            behind_equals-pair c hc,
          )
          (ground arith)
