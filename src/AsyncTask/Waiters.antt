-- ===== src/AsyncTask/Waiters.antt =====
-- What every step keeps: a task is stored under its id, only stored tasks have subscribers, and a
-- channel is subscribed once or holds one task, and not both.
use scheduler.Prelude.{
  ℕ, suc, ◌+◌, ◌≤◌, ◌≡◌, Bool, none, some, List, [], ◌∷◌, if◌then◌else◌, lookup, insert, erase,
  keep, length, lookup-insert, lookup-erase, arith,
}
use scheduler.AsyncTask.{AsyncTask, or_empty, box}
use scheduler.AsyncTask.Channels.{
  hits, occurrences, occurrences-insert, occurrences-erase, HasRoom, Sent,
}

pub record IsTidy (task : List (ℕ × AsyncTask)) (subs : List (ℕ × List (ℕ × ℕ)))
    (channels : List (ℕ × List AsyncTask)) (next : ℕ) : Type 0 where
  pub keyed : (k : ℕ) (t : AsyncTask) → lookup k task ≡ some t → t.id ≡ k
  pub attended : (k : ℕ) → lookup k task ≡ none → or_empty (lookup k subs) ≡ []
  pub single : (c : ℕ) → occurrences c subs + length (box c channels) ≤ 1
  pub fresh : (c : ℕ) → next ≤ c → occurrences c subs + length (box c channels) ≡ 0

hits-keep : (c : ℕ) (p : ℕ × ℕ → Bool) (l : List (ℕ × ℕ)) → hits c (keep p l) ≤ hits c l
hits-keep c p [] = omega arith
hits-keep c p ((a, b) ∷ l) = ground (arith, hits-keep c p l)

module _ (task : List (ℕ × AsyncTask)) (subs : List (ℕ × List (ℕ × ℕ)))
    (channels : List (ℕ × List AsyncTask)) (next : ℕ) (v : IsTidy task subs channels next) where
  pub store-IsTidy :
      (t : AsyncTask) (k : ℕ) → t.id ≡ k → IsTidy (insert k t task) subs channels next
  store-IsTidy t k e = record {
    keyed = λ j u f. ground (arith, lookup-insert k j t task, v.keyed j u);
    attended = λ j f. ground (arith, lookup-insert k j t task, v.attended j);
    single = v.single;
    fresh = v.fresh;
  }

  pub bump-IsTidy : IsTidy task subs channels (suc next)
  bump-IsTidy = record {
    keyed = v.keyed;
    attended = v.attended;
    single = v.single;
    fresh = λ c l. v.fresh c (omega arith);
  }

  pub subscribe-IsTidy :
      (id sub : ℕ) (t : AsyncTask)
      → lookup id task ≡ some t
      → IsTidy task (insert id ((sub, next) ∷ or_empty (lookup id subs)) subs) channels (suc next)
  subscribe-IsTidy id sub t e =
      let l = (sub, next) ∷ or_empty (lookup id subs) in
      record {
        keyed = v.keyed;
        attended = λ k f. ground (arith, lookup-insert id k l subs, v.attended k);
        single = λ c. ground (arith, occurrences-insert c id l subs, v.single c, v.fresh c);
        fresh = λ c h. ground (arith, occurrences-insert c id l subs, v.fresh c);
      }

  pub fill-IsTidy : (t : AsyncTask) → IsTidy task subs (insert next (t ∷ []) channels) (suc next)
  fill-IsTidy t = record {
    keyed = v.keyed;
    attended = v.attended;
    single = λ c. ground (arith, lookup-insert next c (t ∷ []) channels, v.single c, v.fresh c);
    fresh = λ c h. ground (arith, lookup-insert next c (t ∷ []) channels, v.fresh c);
  }

  pub unsubscribe-IsTidy :
      (id : ℕ) (l : List (ℕ × ℕ)) (p : ℕ × ℕ → Bool)
      → (t : AsyncTask) → lookup id task ≡ some t
      → lookup id subs ≡ some l
      → IsTidy task (insert id (keep p l) subs) channels next
  unsubscribe-IsTidy id l p t q e = record {
    keyed = v.keyed;
    attended = λ k f. ground (arith, lookup-insert id k (keep p l) subs, v.attended k);
    single =
        λ c. ground (arith, occurrences-insert c id (keep p l) subs, v.single c, hits-keep c p l);
    fresh =
        λ c h. ground (arith, occurrences-insert c id (keep p l) subs, v.fresh c, hits-keep c p l);
  }

  pub receive-IsTidy : (c : ℕ) → IsTidy task subs (insert c [] channels) next
  receive-IsTidy c = record {
    keyed = v.keyed;
    attended = v.attended;
    single = λ d. ground (arith, lookup-insert c d [] channels, v.single d);
    fresh = λ d h. ground (arith, lookup-insert c d [] channels, v.fresh d);
  }

  pub room-IsTidy : (k : ℕ) → HasRoom (or_empty (lookup k subs)) channels
  room-IsTidy k c = omega (arith, occurrences-erase c k subs, v.single c)

  pub Sent-IsTidy :
      (n : AsyncTask) (k : ℕ) (m : List (ℕ × List AsyncTask)) (ended : Bool)
      → Sent n (or_empty (lookup k subs)) channels m
      → IsTidy (if ended then erase k task else task) (erase k subs) m next
  Sent-IsTidy n k m ended s = record {
    keyed = λ j t e. ground (arith, lookup-erase k j task, v.keyed j t);
    attended = λ j e. ground (arith, lookup-erase k j task, lookup-erase k j subs, v.attended j);
    single = λ c. ground (arith, occurrences-erase c k subs, v.single c, s c);
    fresh = λ c h. ground (arith, occurrences-erase c k subs, v.fresh c, s c);
  }
