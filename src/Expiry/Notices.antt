-- ===== src/Expiry/Notices.antt =====
-- internal/domain/task.go: how the changes of a check are grouped into messages. The texts of the
-- messages are left out, and so is the order of the groups, which is that of a Go map.
use domain_lifecycle_deploym.Base.{
  String, str_eq, eq_iff, Bool, none, some, List, [], ◌∷◌, ◌++◌, ◌≡◌, refl, arith, select,
  if◌then◌else◌, Bool-cases, Option-cases, ℕ, any, count_where, ◌&&◌, ◌==◌, inl, inr, sym, ◌∙◌,
}
use mathlib.Core.List.{append-nil, append_assoc}
use domain_lifecycle_deploym.Expiry.Status.{severity_for_status}
use domain_lifecycle_deploym.Expiry.Check.{ExpiryStateChange}

-- The key of a change; a change to no status has the fallback key.
unfoldable pub notice_key : ExpiryStateChange → String
notice_key c = elim c.new_status [ none ↦ "expired" | some s ↦ s ]

pub record Group : Type 0 where
  pub status : String
  pub changes : List ExpiryStateChange

-- `m[key] = append(m[key], c)`.
unfoldable pub append_to : String → ExpiryStateChange → List Group → List Group
append_to key c [] = record { status = key; changes = c ∷ [] } ∷ []
append_to key c (g ∷ gs) =
    if str_eq g.status key
    then record g { changes = g.changes ++ c ∷ [] } ∷ gs
    else g ∷ append_to key c gs

unfoldable pub group_into : List Group → List ExpiryStateChange → List Group
unfolding append_to notice_key
group_into gs [] = gs
group_into gs (c ∷ cs) = group_into (append_to (notice_key c) c gs) cs

unfoldable pub group_by_status : List ExpiryStateChange → List Group
unfolding group_into
group_by_status cs = group_into [] cs

-- The severity of the message for a group.
unfoldable pub message_severity : Group → String
unfolding severity_for_status
message_severity g = severity_for_status (some g.status)

-- A read of the map.
abbrev pub changes_for : String → List Group → List ExpiryStateChange
changes_for key [] = []
changes_for key (g ∷ gs) = if str_eq g.status key then g.changes else changes_for key gs

abbrev pub has_key_of : String → ExpiryStateChange → Bool
has_key_of key c = str_eq (notice_key c) key

changes_for-append_to :
    (key j : String) (c : ExpiryStateChange) (gs : List Group)
    → changes_for key (append_to j c gs)
      ≡ (if str_eq j key then changes_for key gs ++ c ∷ [] else changes_for key gs)
unfolding append_to
changes_for-append_to key j c [] = ground (arith, eq_iff j key)
changes_for-append_to key j c (g ∷ gs) =
    ground (
      arith,
      eq_iff j key,
      eq_iff g.status j,
      eq_iff g.status key,
      changes_for-append_to key j c gs,
    )

changes_for-group_into :
    (key : String) (gs : List Group) (cs : List ExpiryStateChange)
    → changes_for key (group_into gs cs) ≡ changes_for key gs ++ select (has_key_of key) cs
unfolding group_into select
changes_for-group_into key gs [] = sym (append-nil (changes_for key gs))
changes_for-group_into key gs (c ∷ cs) =
    let rest = changes_for-group_into key (append_to (notice_key c) c gs) cs in
    let here = changes_for-append_to key (notice_key c) c gs in
    elim (Bool-cases (str_eq (notice_key c) key)) [
      | inl same ↦
          rest
          ∙ (rw (here, same)
              (append_assoc (changes_for key gs) (c ∷ []) (select (has_key_of key) cs)))
      | inr other ↦ rest ∙ rw (here, other) refl
    ]

-- The changes that a message under a key should be about: those to this status, and for "expired" also
-- those to no status.
abbrev pub is_about : String → ExpiryStateChange → Bool
is_about key c = elim c.new_status [ none ↦ str_eq "expired" key | some s ↦ str_eq s key ]

is_about_lem : (key : String) (c : ExpiryStateChange) → has_key_of key c ≡ is_about key c
unfolding notice_key
is_about_lem key c = elim (Option-cases c.new_status) [
  | inl e ↦ rw (notice_key, e) refl
  | inr (s, e) ↦ rw (notice_key, e) refl
]

select-is_about :
    (key : String) (cs : List ExpiryStateChange)
    → select (has_key_of key) cs ≡ select (is_about key) cs
unfolding select
select-is_about key [] = refl
select-is_about key (c ∷ cs) = rw (is_about_lem key c, select-is_about key cs) refl

any-is_about :
    (key : String) (cs : List ExpiryStateChange) → any (has_key_of key) cs ≡ any (is_about key) cs
unfolding any
any-is_about key [] = refl
any-is_about key (c ∷ cs) = rw (is_about_lem key c, any-is_about key cs) refl

-- How many messages are sent under a key.
abbrev pub messages_under : String → List Group → ℕ
messages_under key gs = count_where (λ g. str_eq g.status key) gs

messages_under-append_to :
    (key j : String) (c : ExpiryStateChange) (gs : List Group)
    → messages_under key (append_to j c gs)
      ≡ (if str_eq j key && (messages_under key gs == 0) then 1 else messages_under key gs)
unfolding append_to count_where
messages_under-append_to key j c [] = ground (arith, eq_iff j key)
messages_under-append_to key j c (g ∷ gs) = ground (
  arith,
  eq_iff j key,
  eq_iff g.status j,
  eq_iff g.status key,
  messages_under-append_to key j c gs,
)

messages_under-group_into :
    (key : String) (gs : List Group) (cs : List ExpiryStateChange)
    → messages_under key (group_into gs cs) ≡ (
        if any (has_key_of key) cs && (messages_under key gs == 0)
        then 1
        else messages_under key gs)
unfolding group_into any
messages_under-group_into key gs [] = ground arith
messages_under-group_into key gs (c ∷ cs) = ground (
  arith,
  messages_under-group_into key (append_to (notice_key c) c gs) cs,
  messages_under-append_to key (notice_key c) c gs,
)

-- One message is sent under a status if some change is to it, and none otherwise; it is about exactly
-- the changes to that status, in their order. A change to no status is announced as one to "expired".
pub group_by_status-Partitions :
    (key : String) (cs : List ExpiryStateChange)
    → (messages_under key (group_by_status cs) ≡ (if any (is_about key) cs then 1 else 0))
      × (changes_for key (group_by_status cs) ≡ select (is_about key) cs)
unfolding group_by_status count_where
group_by_status-Partitions key cs = (
  messages_under-group_into key [] cs ∙ rw (any-is_about key cs) (ground arith),
  changes_for-group_into key [] cs ∙ select-is_about key cs,
)
