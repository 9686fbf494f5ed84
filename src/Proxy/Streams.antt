-- ===== src/Proxy/Streams.antt =====
-- The bytes that the session forwards, as a stream to each peer.
pub mod Calls
pub mod Handlers
pub mod Running
use mini_reactor.Base.{
  ℕ, ◌≡◌, refl, sym, ap, ◌∙◌, subst, List, [], ◌∷◌, ◌++◌, map, append-nil, append_assoc,
}
use mini_reactor.Net.Buffer.{Buffer}
use mini_reactor.Net.Buffer.Contents.{IsValid}
use mini_reactor.Net.Connection.{Effect}
use mini_reactor.Net.Connection.Stream.{
  requests, requests-append, Carries, Carries-still, Carries-join,
}
use mini_reactor.Proxy.{Peer, upstream, downstream, other, Event, did, received, discarded}

abbrev effect_of : Peer → Event → List Effect
effect_of upstream (did upstream e) = e ∷ []
effect_of upstream (did downstream e) = []
effect_of downstream (did upstream e) = []
effect_of downstream (did downstream e) = e ∷ []
effect_of _ _ = []

abbrev bytes_of : Peer → Event → List ℕ
bytes_of upstream (received upstream bytes) = bytes
bytes_of downstream (received downstream bytes) = bytes
bytes_of upstream (discarded upstream bytes) = bytes
bytes_of downstream (discarded downstream bytes) = bytes
bytes_of _ _ = []

-- What the connection to a peer did, and the bytes that came from a peer, also if they were
-- discarded.
abbrev pub effects : Peer → List Event → List Effect
effects p [] = []
effects p (e ∷ es) = effect_of p e ++ effects p es

abbrev pub bytes_from : Peer → List Event → List ℕ
bytes_from p [] = []
bytes_from p (e ∷ es) = bytes_of p e ++ bytes_from p es

effects-append :
    (p : Peer) (es fs : List Event) → effects p (es ++ fs) ≡ effects p es ++ effects p fs
effects-append p [] fs = refl
effects-append p (e ∷ es) fs =
    ap (λ l. effect_of p e ++ l) (effects-append p es fs)
    ∙ sym (append_assoc (effect_of p e) (effects p es) (effects p fs))

bytes_from-append :
    (p : Peer) (es fs : List Event) → bytes_from p (es ++ fs) ≡ bytes_from p es ++ bytes_from p fs
bytes_from-append p [] fs = refl
bytes_from-append p (e ∷ es) fs =
    ap (λ l. bytes_of p e ++ l) (bytes_from-append p es fs)
    ∙ sym (append_assoc (bytes_of p e) (bytes_from p es) (bytes_from p fs))

effects-own : (p : Peer) (es : List Effect) → effects p (map (did p) es) ≡ es
effects-own upstream [] = refl
effects-own upstream (e ∷ es) = ap (λ l. e ∷ l) (effects-own upstream es)
effects-own downstream [] = refl
effects-own downstream (e ∷ es) = ap (λ l. e ∷ l) (effects-own downstream es)

effects-other : (p : Peer) (es : List Effect) → effects (other p) (map (did p) es) ≡ []
effects-other upstream [] = refl
effects-other upstream (e ∷ es) = effects-other upstream es
effects-other downstream [] = refl
effects-other downstream (e ∷ es) = effects-other downstream es

bytes_from-did : (p q : Peer) (es : List Effect) → bytes_from q (map (did p) es) ≡ []
bytes_from-did p q [] = refl
bytes_from-did upstream upstream (e ∷ es) = bytes_from-did upstream upstream es
bytes_from-did upstream downstream (e ∷ es) = bytes_from-did upstream downstream es
bytes_from-did downstream upstream (e ∷ es) = bytes_from-did downstream upstream es
bytes_from-did downstream downstream (e ∷ es) = bytes_from-did downstream downstream es

-- The stream to a peer: its output buffer, and what the session keeps for it.
abbrev pub Line : Type 0
Line = Buffer × List ℕ

pub record Passes (p : Peer) (before : Line) (es : List Event) (after : Line) : Type 0 where
  pub carries : Carries before.0 (effects p es) after.0
  pub relays : requests (effects p es) ++ after.1 ≡ before.1 ++ bytes_from (other p) es

Passes-none : (p : Peer) (l : Line) → IsValid l.0 → Passes p l [] l
Passes-none p l v = record { carries = Carries-still l.0 [] v tt; relays = sym (append-nil l.1) }

Passes-then :
    (p : Peer) (a b c : Line) (es fs : List Event)
    → Passes p a es b
    → Passes p b fs c
    → Passes p a (es ++ fs) c
Passes-then p a b c es fs h k = record {
  carries =
      subst (λ l. Carries a.0 l c.0) (sym (effects-append p es fs))
        (Carries-join a.0 b.0 c.0 (effects p es) (effects p fs) h.carries k.carries);
  relays =
      ap (λ l. requests l ++ c.1) (effects-append p es fs)
      ∙ ap (λ l. l ++ c.1) (requests-append (effects p es) (effects p fs))
      ∙ append_assoc (requests (effects p es)) (requests (effects p fs)) c.1
      ∙ ap (λ l. requests (effects p es) ++ l) k.relays
      ∙ sym (append_assoc (requests (effects p es)) b.1 (bytes_from (other p) fs))
      ∙ ap (λ l. l ++ bytes_from (other p) fs) h.relays
      ∙ append_assoc a.1 (bytes_from (other p) es) (bytes_from (other p) fs)
      ∙ ap (λ l. a.1 ++ l) (sym (bytes_from-append (other p) es fs));
}

-- A call of the connection to the peer that requests the bytes `asked` of what is kept.
Passes-own :
    (p : Peer) (b b' : Buffer) (asked rest : List ℕ) (es : List Effect)
    → Carries b es b'
    → requests es ≡ asked
    → Passes p (b, asked ++ rest) (map (did p) es) (b', rest)
Passes-own p b b' asked rest es h k = record {
  carries = subst (λ l. Carries b l b') (sym (effects-own p es)) h;
  relays =
      rw (effects-own p es, bytes_from-did p (other p) es, k) (sym (append-nil (asked ++ rest)));
}

Passes-other :
    (p : Peer) (l : Line) (es : List Effect) → IsValid l.0 → Passes (other p) l (map (did p) es) l
Passes-other p l es v = record {
  carries = subst (λ k. Carries l.0 k l.0) (sym (effects-other p es)) (Carries-still l.0 [] v tt);
  relays = rw (effects-other p es, bytes_from-did p (other (other p)) es) (sym (append-nil l.1));
}

Passes-received :
    (p : Peer) (b : Buffer) (kept bytes : List ℕ)
    → IsValid b
    → Passes p (b, kept) (received (other p) bytes ∷ []) (b, kept ++ bytes)
Passes-received upstream b kept bytes v = record {
  carries = Carries-still b [] v tt;
  relays = ap (λ l. kept ++ l) (sym (append-nil bytes));
}
Passes-received downstream b kept bytes v = record {
  carries = Carries-still b [] v tt;
  relays = ap (λ l. kept ++ l) (sym (append-nil bytes));
}

Passes-silent :
    (p : Peer) (l : Line) (bytes : List ℕ) → IsValid l.0 → Passes p l (received p bytes ∷ []) l
Passes-silent upstream l bytes v = record {
  carries = Carries-still l.0 [] v tt;
  relays = sym (append-nil l.1);
}
Passes-silent downstream l bytes v = record {
  carries = Carries-still l.0 [] v tt;
  relays = sym (append-nil l.1);
}

abbrev pub Lines : Type 0
Lines = Line × Line

-- The stream to the upstream and the one to the downstream.
pub record Both (before : Lines) (es : List Event) (after : Lines) : Type 0 where
  pub to_up : Passes upstream before.0 es after.0
  pub to_down : Passes downstream before.1 es after.1

pub Both-none : (l : Lines) → IsValid l.0.0 → IsValid l.1.0 → Both l [] l
Both-none l v w = record {
  to_up = Passes-none upstream l.0 v;
  to_down = Passes-none downstream l.1 w;
}

pub Both-then :
    (a b c : Lines) (es fs : List Event) → Both a es b → Both b fs c → Both a (es ++ fs) c
Both-then a b c es fs h k = record {
  to_up = Passes-then upstream a.0 b.0 c.0 es fs h.to_up k.to_up;
  to_down = Passes-then downstream a.1 b.1 c.1 es fs h.to_down k.to_down;
}

-- The line to the peer and the other one.
abbrev pub pair : Peer → Line → Line → Lines
pair upstream own rest = (own, rest)
pair downstream own rest = (rest, own)

pub Both-call :
    (p : Peer) (b b' : Buffer) (asked rest : List ℕ) (l : Line) (es : List Effect)
    → Carries b es b'
    → requests es ≡ asked
    → IsValid l.0
    → Both (pair p (b, asked ++ rest) l) (map (did p) es) (pair p (b', rest) l)
Both-call upstream b b' asked rest l es h k v = record {
  to_up = Passes-own upstream b b' asked rest es h k;
  to_down = Passes-other upstream l es v;
}
Both-call downstream b b' asked rest l es h k v = record {
  to_up = Passes-other downstream l es v;
  to_down = Passes-own downstream b b' asked rest es h k;
}

pub Both-received :
    (p : Peer) (b : Buffer) (kept bytes : List ℕ) (l : Line)
    → IsValid b
    → IsValid l.0
    → Both (pair p (b, kept) l) (received (other p) bytes ∷ []) (pair p (b, kept ++ bytes) l)
Both-received upstream b kept bytes l v w = record {
  to_up = Passes-received upstream b kept bytes v;
  to_down = Passes-silent downstream l bytes w;
}
Both-received downstream b kept bytes l v w = record {
  to_up = Passes-silent upstream l bytes w;
  to_down = Passes-received downstream b kept bytes v;
}
