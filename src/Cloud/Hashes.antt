-- ===== src/Cloud/Hashes.antt =====
-- The hashes of the sessions of internal/cloud are a key, and what a deletion keeps of the table.
use fox_fleet.Prelude.{
  ℕ, ◌≡◌, ◌≢◌, String, none, List, [], ◌∷◌, ◌++◌, if_pos, if_neg, ltb, string_discrete, arith, All,
  Bool-cases, inl, inr,
}
use fox_fleet.Cloud.Rows.{
  Session, find_session, delete_session, delete_sessions_of, delete_expired, cascade,
}

-- No session has the hash.
abbrev NoHash : String → List Session → Type 0
NoHash h ss = All (λ s. s.token_hash ≢ h) ss

abbrev pub UniqueHashes : List Session → Type 0
UniqueHashes [] = Unit {0}
UniqueHashes (s ∷ ss) = NoHash s.token_hash ss × UniqueHashes ss

-- What a deletion keeps of the sessions: it leaves out some of them.
pub data Thins : List Session → List Session → Type 0 where
  thin_nil : Thins [] []
  thin_keep : (s : Session) {ss ts : List Session} → Thins ss ts → Thins (s ∷ ss) (s ∷ ts)
  thin_drop : (s : Session) {ss ts : List Session} → Thins ss ts → Thins (s ∷ ss) ts

pub Thins-All : (P : Session → Type 0) {ss ts : List Session} → Thins ss ts → All P ss → All P ts
Thins-All P thin_nil a = tt
Thins-All P (thin_keep s t) a = (a.0, Thins-All P t a.1)
Thins-All P (thin_drop s t) a = Thins-All P t a.1

pub Thins-UniqueHashes : {ss ts : List Session} → Thins ss ts → UniqueHashes ss → UniqueHashes ts
Thins-UniqueHashes thin_nil u = tt
Thins-UniqueHashes (thin_keep s t) u =
    (Thins-All (λ x. x.token_hash ≢ s.token_hash) t u.0, Thins-UniqueHashes t u.1)
Thins-UniqueHashes (thin_drop s t) u = Thins-UniqueHashes t u.1

pub Thins-refl : (ss : List Session) → Thins ss ss
Thins-refl [] = thin_nil
Thins-refl (s ∷ ss) = thin_keep s (Thins-refl ss)

pub delete_session-Thins : (h : String) (ss : List Session) → Thins ss (delete_session h ss)
unfolding delete_session
delete_session-Thins h [] = thin_nil
delete_session-Thins h (s ∷ ss) = elim (string_discrete s.token_hash h) [
  | yes p ↦ rw (if_pos _ p) (thin_drop s (delete_session-Thins h ss))
  | no p ↦ rw (if_neg _ p) (thin_keep s (delete_session-Thins h ss))
]

pub delete_sessions_of-Thins :
    (id : String) (ss : List Session) → Thins ss (delete_sessions_of id ss)
unfolding delete_sessions_of
delete_sessions_of-Thins id [] = thin_nil
delete_sessions_of-Thins id (s ∷ ss) = elim (string_discrete s.user_id id) [
  | yes p ↦ rw (if_pos _ p) (thin_drop s (delete_sessions_of-Thins id ss))
  | no p ↦ rw (if_neg _ p) (thin_keep s (delete_sessions_of-Thins id ss))
]

pub delete_expired-Thins : (now : ℕ) (ss : List Session) → Thins ss (delete_expired now ss)
unfolding delete_expired
delete_expired-Thins now [] = thin_nil
delete_expired-Thins now (s ∷ ss) = elim (Bool-cases (ltb s.expires_at now)) [
  | inl p ↦ rw p (thin_drop s (delete_expired-Thins now ss))
  | inr p ↦ rw p (thin_keep s (delete_expired-Thins now ss))
]

NoHash-append :
    (h : String) (ss : List Session) (x : Session)
    → NoHash h ss
    → x.token_hash ≢ h
    → NoHash h (ss ++ x ∷ [])
NoHash-append h [] x a n = (n, tt)
NoHash-append h (s ∷ ss) x a n = (a.0, NoHash-append h ss x a.1 n)

pub UniqueHashes-append :
    (ss : List Session) (x : Session)
    → find_session x.token_hash ss ≡ none
    → UniqueHashes ss
    → UniqueHashes (ss ++ x ∷ [])
unfolding find_session
UniqueHashes-append [] x f u = (tt, tt)
UniqueHashes-append (s ∷ ss) x f u = (
  NoHash-append s.token_hash ss x u.0 (ground arith),
  UniqueHashes-append ss x (ground arith) u.1,
)

module _ (nocase : String → String) where
  pub cascade-Thins : (key : String) (ss : List Session) → Thins ss (cascade nocase key ss)
  unfolding cascade
  cascade-Thins key [] = thin_nil
  cascade-Thins key (s ∷ ss) = elim (string_discrete (nocase s.user_id) key) [
    | yes p ↦ rw (if_pos _ p) (thin_drop s (cascade-Thins key ss))
    | no p ↦ rw (if_neg _ p) (thin_keep s (cascade-Thins key ss))
  ]
