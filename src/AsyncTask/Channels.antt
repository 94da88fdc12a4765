-- ===== src/AsyncTask/Channels.antt =====
-- How often a channel is subscribed, and what the listener's sends leave in the channels.
use scheduler.Prelude.{
  ℕ, ◌+◌, ◌≤◌, ◌≡◌, some, List, [], ◌∷◌, ◌==◌, if◌then◌else◌, lookup, insert, erase, length,
  lookup-insert, arith, refl,
}
use scheduler.AsyncTask.{AsyncTask, or_empty, box, send_all}

-- How many of the subscribers have the channel.
abbrev pub hits : ℕ → List (ℕ × ℕ) → ℕ
hits channel [] = 0
hits channel ((sub, c) ∷ subs) = (if c == channel then 1 else 0) + hits channel subs

abbrev pub occurrences : ℕ → List (ℕ × List (ℕ × ℕ)) → ℕ
occurrences channel [] = 0
occurrences channel ((k, subs) ∷ m) = hits channel subs + occurrences channel m

pub occurrences-insert :
    (channel k : ℕ) (v : List (ℕ × ℕ)) (m : List (ℕ × List (ℕ × ℕ)))
    → occurrences channel (insert k v m) + hits channel (or_empty (lookup k m))
      ≡ occurrences channel m + hits channel v
occurrences-insert channel k v [] = omega arith
occurrences-insert channel k v ((j, w) ∷ m) = ground (arith, occurrences-insert channel k v m)

pub occurrences-erase :
    (channel k : ℕ) (m : List (ℕ × List (ℕ × ℕ)))
    → occurrences channel (erase k m) + hits channel (or_empty (lookup k m)) ≤ occurrences channel m
occurrences-erase channel k [] = omega arith
occurrences-erase channel k ((j, w) ∷ m) = ground (arith, occurrences-erase channel k m)

-- No channel is subscribed twice, nor subscribed and full.
abbrev pub HasRoom : List (ℕ × ℕ) → List (ℕ × List AsyncTask) → Type 0
HasRoom subs m = (channel : ℕ) → hits channel subs + length (box channel m) ≤ 1

-- Each channel gets the notification once for each subscriber that has it, and nothing else.
abbrev pub Sent :
    AsyncTask → List (ℕ × ℕ) → List (ℕ × List AsyncTask) → List (ℕ × List AsyncTask) → Type 0
Sent n subs m m' =
    (channel : ℕ) → box channel m' ≡ (if hits channel subs == 0 then box channel m else n ∷ [])

box-insert :
    (c d : ℕ) (l : List AsyncTask) (m : List (ℕ × List AsyncTask))
    → box d (insert c l m) ≡ (if c == d then l else box d m)
box-insert c d l m = ground (arith, lookup-insert c d l m)

room_left :
    (n : AsyncTask) (sub c : ℕ) (subs : List (ℕ × ℕ)) (m : List (ℕ × List AsyncTask))
    → HasRoom ((sub, c) ∷ subs) m
    → HasRoom subs (insert c (n ∷ []) m)
room_left n sub c subs m h channel = ground (arith, h channel, box-insert c channel (n ∷ []) m)

length_zero : (l : List AsyncTask) → length l ≡ 0 → l ≡ []
length_zero [] e = refl
length_zero (x ∷ xs) e = absurd (omega arith)

-- With room, every send succeeds.
pub send_all-Sent :
    (n : AsyncTask) (subs : List (ℕ × ℕ)) (m : List (ℕ × List AsyncTask))
    → HasRoom subs m
    → (m' : List (ℕ × List AsyncTask)) × (send_all n subs m ≡ some m') × Sent n subs m m'
unfolding send_all
send_all-Sent n [] m h = (m, refl, λ channel. refl)
send_all-Sent n ((sub, c) ∷ subs) m h =
    let (m', e, s) = send_all-Sent n subs (insert c (n ∷ []) m) (room_left n sub c subs m h) in
    let empty : box c m ≡ [] = length_zero (box c m) (ground (arith, h c)) in
    (
      m',
      rw (empty, send_all) e,
      λ channel. ground (arith, s channel, box-insert c channel (n ∷ []) m),
    )
