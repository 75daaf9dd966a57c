-- ===== src/Base/Zoom.antt =====
-- An action of a component inside a larger one: it sees its own part of the tables.

use mathlib.Core.Path.{ap}
use domain_lifecycle_deploym.Base.Exec.{Res, ok, err, Exec}
use domain_lifecycle_deploym.Base.Runs.{Runs}
use domain_lifecycle_deploym.Base.Always.{Always, Post}

module _ {ℓ} {E F A : Type ℓ} where
  abbrev pub with_error : (F → E) → Res F A → Res E A
  with_error wrap (ok a) = ok a
  with_error wrap (err e) = err (wrap e)

module _ {ℓ} {E F S T A : Type ℓ} where
  unfoldable pub zoom : (S → T) → (T → S → S) → (F → E) → Exec F T A → Exec E S A
  zoom get put wrap m d =
      let (r, d') = m (record { tables = get d.tables; faults = d.faults; calls = d.calls }) in
      (
        with_error wrap r,
        record { tables = put d'.tables d.tables; faults = d'.faults; calls = d'.calls },
      )

  pub Runs-zoom :
      (get : S → T) (put : T → S → S) (wrap : F → E) (m : Exec F T A) (s : S) (a : A) (t : T)
      → Runs m (get s) a t
      → Runs (zoom get put wrap m) s a (put t s)
  unfolding zoom
  Runs-zoom get put wrap m s a t h = record {
    at = λ d p q.
        let o =
          h.at (record { tables = get d.tables; faults = d.faults; calls = d.calls }) (ap get p)
            q in
        record {
          result = ap (with_error wrap) o.result;
          tables = λ i. put (o.tables i) (p i);
          no_faults = o.no_faults;
        };
  }

module _ {ℓ} {E F S A : Type ℓ} where
  keeps-Post :
      (P : S → Type ℓ) (r : Res F A) (wrap : F → E) (s : S)
      → P s
      → Post (λ _. P) P (with_error wrap r) s
  keeps-Post P (ok a) wrap s p = p
  keeps-Post P (err e) wrap s p = p

module _ {ℓ} {E F S T A : Type ℓ} {P : S → Type ℓ} where
  -- What no change of the part can spoil stays, whatever the part's action does.
  pub Always-zoom :
      (get : S → T) (put : T → S → S) (wrap : F → E) (m : Exec F T A)
      → ((t : T) (s : S) → P s → P (put t s))
      → Always (zoom get put wrap m) P (λ _. P) P
  unfolding zoom
  Always-zoom get put wrap m h = record { at = λ d p. keeps-Post P _ wrap _ (h _ d.tables p) }
