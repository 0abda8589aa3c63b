-- ===== src/Contracts/Party/Laws.antt =====
-- The id of a party is read back from its label, and when it is not.
use gl_tomsxp.Common.{
  chars, of_chars, chars-concat, of_chars-chars, ◌≡◌, refl, ap, sym, ◌∙◌, Char, some, Bool, false,
  List, [], ◌∷◌, ◌++◌, append_assoc, append-nil, concat,
}
use gl_tomsxp.Contracts.Party.{is_sep, split_from, party_id, PartyName, party_label}

-- The separator stands at the head of the list.
abbrev pub starts_sep : List Char → Bool
starts_sep (c ∷ d ∷ e ∷ s) = is_sep c d e
starts_sep _ = false

abbrev pub sep : List Char
sep = " " ∷ "-" ∷ " " ∷ []

-- The separator stands nowhere.
abbrev pub HasNoSep : List Char → Type 0
HasNoSep [] = Unit
HasNoSep (c ∷ s) = (starts_sep (c ∷ s) ≡ false) × HasNoSep s

-- In the list with " - " behind it the separator does not begin before its end.
abbrev pub IsClean : List Char → Type 0
IsClean [] = Unit
IsClean (c ∷ s) = (starts_sep (c ∷ s ++ sep) ≡ false) × IsClean s

split_from-HasNoSep : (piece s : List Char) → HasNoSep s → split_from piece s ≡ (piece ++ s) ∷ []
unfolding split_from
split_from-HasNoSep piece [] h = rw append-nil
split_from-HasNoSep piece (c ∷ []) h = refl
split_from-HasNoSep piece (c ∷ d ∷ []) h = refl
split_from-HasNoSep piece (c ∷ d ∷ e ∷ s) (h, rest) = rw h (
    split_from-HasNoSep (piece ++ c ∷ []) (d ∷ e ∷ s) rest
    ∙ ap (λ p. p ∷ []) (append_assoc piece (c ∷ []) (d ∷ e ∷ s)))

-- Reading one character that begins no separator.
split_from-cons :
    (piece : List Char) (c d e : Char) (s : List Char)
    → is_sep c d e ≡ false
    → split_from piece (c ∷ d ∷ e ∷ s) ≡ split_from (piece ++ c ∷ []) (d ∷ e ∷ s)
unfolding split_from
split_from-cons piece c d e s h = rw h

split_from-IsClean :
    (piece s rest : List Char)
    → IsClean s
    → split_from piece (s ++ (sep ++ rest)) ≡ (piece ++ s) ∷ split_from [] rest
split_from-IsClean piece [] rest h =
    unfold split_from in ap (λ p. p ∷ split_from [] rest) (sym (append-nil piece))
split_from-IsClean piece (c ∷ s) rest (h, more) =
    skip s h
    ∙ split_from-IsClean (piece ++ c ∷ []) s rest more
    ∙ ap (λ p. p ∷ split_from [] rest) (append_assoc piece (c ∷ []) s)
  where
    skip :
        (t : List Char)
        → starts_sep (c ∷ t ++ sep) ≡ false
        → split_from piece ((c ∷ t) ++ (sep ++ rest))
          ≡ split_from (piece ++ c ∷ []) (t ++ (sep ++ rest))
    skip [] e = split_from-cons piece c _ _ _ e
    skip (d ∷ []) e = split_from-cons piece c d _ _ e
    skip (d ∷ a ∷ t) e = split_from-cons piece c d a _ e

chars-party_label : (p : PartyName) → chars (party_label p) ≡ chars p.value ++ (sep ++ chars p.key)
unfolding party_label
chars-party_label p =
    chars-concat p.value (concat " - " p.key)
    ∙ ap (λ t. chars p.value ++ t) (chars-concat " - " p.key)

-- The id of a party is read back from its label if " - " stands neither in the id nor in the name,
-- where a name that ends in " -" counts as one in which it stands.
pub party_id-party_label :
    (p : PartyName)
    → IsClean (chars p.value)
    → HasNoSep (chars p.key)
    → party_id (party_label p) ≡ some p.key
unfolding party_id
party_id-party_label p clean plain =
    rw
      (
        chars-party_label p,
        split_from-IsClean [] (chars p.value) (chars p.key) clean,
        split_from-HasNoSep [] (chars p.key) plain,
      )
      (ap some (of_chars-chars p.key))

-- If the name holds the separator, what is read back is the part of the name between its first
-- separator and the next one, and not the id.
pub party_id_of_unclean :
    (p : PartyName) (before after : List Char)
    → chars p.value ≡ before ++ (sep ++ after)
    → IsClean before
    → IsClean after
    → party_id (party_label p) ≡ some (of_chars after)
unfolding party_id
party_id_of_unclean p before after e clean clean' =
    rw
      (
        chars-party_label p,
        e,
        append_assoc before (sep ++ after) (sep ++ chars p.key),
        split_from-IsClean [] before (after ++ (sep ++ chars p.key)) clean,
        split_from-IsClean [] after (chars p.key) clean',
      )
      refl
