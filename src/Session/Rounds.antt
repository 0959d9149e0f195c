-- ===== src/Session/Rounds.antt =====
-- The rounds of a request: how many there are, and what they end in.
use mcpdial.Base.{
  ℕ, zero, suc, ◌+◌, ◌≤◌, Bool, Option, none, some, Str, ◌≡◌, refl, ◌∙◌, arith, subst,
}
use mcpdial.Json.{Value, Fields}
use mcpdial.Protocol.Errors.{Result, ok, err}
use mcpdial.Protocol.Version.{KnownVersion}
use mcpdial.Protocol.Meta.{InputRequired}
use mcpdial.Protocol.Messages.{request}
use mcpdial.Session.{
  with_meta, with_token, Transport, Session, on_ok, received, send, asked_for_input, still, again,
  one_round, rounds, request_watching,
}

-- A result that is no demand for input.
abbrev pub IsFinal : KnownVersion → Result Value → Type 0
IsFinal version (ok result) = asked_for_input version result ≡ none
IsFinal version (err e) = Unit

module _ {S : Type 0} where
  -- What requests do to a session: at most `n` ids are used, and of the rest
  -- the version, the pin and the expectation stay as they are.
  pub record IsUsed (n : ℕ) (s : Session S) (t : Session S) : Type 0 where
    pub later : s.next_id ≤ t.next_id
    pub few : t.next_id ≤ s.next_id + n
    pub same_version : t.version ≡ s.version
    pub same_pinned : t.pinned ≡ s.pinned
    pub same_expected : t.expected ≡ s.expected

  IsUsed-after : {n : ℕ} {s t u : Session S} → IsUsed 1 s t → IsUsed n t u → IsUsed (suc n) s u
  IsUsed-after a b = record {
    later = omega (arith, a.later, b.later);
    few = omega (arith, a.few, b.few);
    same_version = b.same_version ∙ a.same_version;
    same_pinned = b.same_pinned ∙ a.same_pinned;
    same_expected = b.same_expected ∙ a.same_expected;
  }

  IsUsed-refl : (n : ℕ) (s : Session S) → IsUsed n s s
  IsUsed-refl n s = record {
    later = omega arith;
    few = omega arith;
    same_version = refl;
    same_pinned = refl;
    same_expected = refl;
  }

  IsUsed-received :
      (s : Session S) (p : S × Result (Option Value))
      → IsUsed 1 s (received (record s { next_id = s.next_id + 1 }) p).0
  IsUsed-received s (carrier, reply) = record {
    later = omega arith;
    few = omega arith;
    same_version = refl;
    same_pinned = refl;
    same_expected = refl;
  }

  -- What a request comes to.
  pub record IsSettled (n : ℕ) (s : Session S) (out : Session S × Result Value) : Type 0 where
    pub used : IsUsed n s out.0
    pub final : IsFinal s.version out.1

  module _ (T : Transport S) where
    pub send-IsUsed :
        (s : Session S) (method : Str) (params : Option Value) (progress : Bool)
        → IsUsed 1 s (send T s method params progress).0
    unfolding send
    send-IsUsed s method params progress = IsUsed-received s (
        T.send_watching s.carrier (
          request method (s.next_id + 1)
            (with_meta s (with_token progress params (s.next_id + 1)))))

    settle_on :
        (n : ℕ) (s : Session S) (out : Session S × Result Value)
        (go_on : Session S → Value → Session S × Result Value)
        → IsUsed 1 s out.0
        → ((t : Session S) (r : Value) → t.version ≡ s.version → IsSettled n t (go_on t r))
        → IsSettled (suc n) s (on_ok out go_on)
    settle_on n s (t, err e) go_on used later = record {
      used = IsUsed-after used (IsUsed-refl n t);
      final = tt;
    }
    settle_on n s (t, ok r) go_on used later =
        let next = later t r used.same_version in
        record {
          used = IsUsed-after used next.used;
          final = subst (λ v. IsFinal v (go_on t r).1) used.same_version next.final;
        }

    again-IsSettled :
        (n : ℕ) (s : Session S) (method : Str) (params : Option Value) (progress : Bool)
        (state : Option Str) (answers : Result Fields)
        (go_on : Session S → Value → Session S × Result Value)
        → ((t : Session S) (r : Value) → t.version ≡ s.version → IsSettled n t (go_on t r))
        → IsSettled (suc n) s (again T s method params progress state answers go_on)
    again-IsSettled n s method params progress state (err e) go_on later = record {
      used = IsUsed-refl (suc n) s;
      final = tt;
    }
    again-IsSettled n s method params progress state (ok answers) go_on later =
        settle_on n s _ go_on (send-IsUsed s method _ progress) later

    one_round-IsSettled :
        (n : ℕ) (s : Session S) (method : Str) (params : Option Value) (progress : Bool)
        (result : Value) (asked : Option InputRequired)
        (go_on : Session S → Value → Session S × Result Value)
        → asked_for_input s.version result ≡ asked
        → ((t : Session S) (r : Value) → t.version ≡ s.version → IsSettled n t (go_on t r))
        → IsSettled (suc n) s (one_round T s method params progress result asked go_on)
    one_round-IsSettled n s method params progress result none go_on e later = record {
      used = IsUsed-refl (suc n) s;
      final = e;
    }
    one_round-IsSettled n s method params progress result (some asked) go_on e later =
        again-IsSettled n s method params progress asked.state _ go_on later

    still-IsSettled :
        (s : Session S) (method : Str) (result : Value) (asked : Option InputRequired)
        → asked_for_input s.version result ≡ asked
        → IsSettled 0 s (still T s method result asked)
    still-IsSettled s method result none e = record { used = IsUsed-refl 0 s; final = e }
    still-IsSettled s method result (some asked) e = record { used = IsUsed-refl 0 s; final = tt }

    rounds-IsSettled :
        (n : ℕ) (s : Session S) (method : Str) (params : Option Value) (progress : Bool)
        (result : Value)
        → IsSettled n s (rounds T n s method params progress result)
    unfolding rounds
    rounds-IsSettled zero s method params progress result = still-IsSettled s method result _ refl
    rounds-IsSettled (suc n) s method params progress result =
        one_round-IsSettled n s method params progress result _ _ refl
          (λ t r same. rounds-IsSettled n t method params progress r)

    -- Whatever a server asks for, a request uses at most five ids; what it gives is never a demand for
    -- input, and the version, the pin and the expectation of the session stay as they are.
    pub request_watching-IsSettled :
        (s : Session S) (method : Str) (params : Option Value) (progress : Bool)
        → IsSettled 5 s (request_watching T s method params progress)
    unfolding request_watching
    request_watching-IsSettled s method params progress =
        settle_on 4 s _ _ (send-IsUsed s method params progress)
          (λ t r same. rounds-IsSettled 4 t method params progress r)
