-- ===== src/Installer/Disk/Ends.antt =====
-- What holds after an action, whether it returns or raises.
use ez_open_pn.Errors.{Result, ok, err}
use ez_open_pn.Installer.Io.{Io, continue, ◌>>=◌, finally, Disk}
use ez_open_pn.Installer.Disk.Laws.{Keeps, afterwards-Keeps}

pub record Ends (P : Disk → Type 0) {A : Type 0} (m : Io A) (R : Disk → Type 0) : Type 0 where
  pub at : (d : Disk) → P d → R (m d).1

module _ {A B : Type 0} {P R : Disk → Type 0} where
  continue-Ends :
      (f : A → Io B)
      → ((a : A) → Ends P (f a) R)
      → ((d : Disk) → P d → R d)
      → (r : Result A) (d : Disk) → P d
      → R (continue r f d).1
  continue-Ends f k g (ok a) d h = (k a).at d h
  continue-Ends f k g (err x) d h = g d h

  pub Ends-bind :
      (m : Io A) (f : A → Io B)
      → ((d : Disk) → P d → R d)
      → Keeps P m
      → ((a : A) → Ends P (f a) R)
      → Ends P (m >>= f) R
  unfolding ◌>>=◌
  Ends-bind m f g km kf = record { at = λ d h. continue-Ends f kf g (m d).0 (m d).1 (km.at d h) }

module _ {A : Type 0} {P R : Disk → Type 0} where
  pub Ends-finally :
      (m : Io A) (c : Io (Unit {0})) → Ends P m R → Keeps R c → Ends P (finally m c) R
  unfolding finally
  Ends-finally m c k kc = record {
    at = λ d h. afterwards-Keeps A R (m d).0 (c (m d).1).0 (c (m d).1).1 (kc.at (m d).1 (k.at d h));
  }
