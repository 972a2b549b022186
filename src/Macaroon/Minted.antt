-- ===== src/Macaroon/Minted.antt =====
-- The macaroons that the operations can build under a root key, as a relation: what holds of all
-- of them.
use macaroon.Prelude.{◌≡◌, Option, Bytes, subst}
use macaroon.Error.{ok}
use macaroon.Utf8.{IsText}
use macaroon.Crypto.{Primitives, Laws, MacaroonKey, IsKey, Entropy, FillsBuffers}
use macaroon.Macaroon.{Macaroon, create, add_first_party_caveat, add_third_party_caveat}
use macaroon.Macaroon.Valid.{
  IsValid, IsOptionalText, create-IsValid, add_first_party_caveat-IsValid,
  add_third_party_caveat-IsValid,
}
use macaroon.Macaroon.Signature.{
  IsSigned, create-IsSigned, push_caveat-IsSigned, add_first_party_caveat-push,
  add_third_party_caveat-push,
}

pub data Minted (p : Primitives) (key : MacaroonKey) : Macaroon → Type 0 where
  created :
      {m : Macaroon} (location : Option Bytes) (identifier : Bytes)
      → IsOptionalText location
      → create p location key identifier ≡ ok m
      → Minted p key m
  with_first_party :
      {m m' : Macaroon} (predicate : Bytes)
      → Minted p key m
      → add_first_party_caveat p m predicate ≡ ok m'
      → Minted p key m'
  with_third_party :
      {m m' : Macaroon} (random : Entropy) (location caveat_key id : Bytes)
      → FillsBuffers random
      → IsText location
      → IsKey caveat_key
      → Minted p key m
      → add_third_party_caveat p random m location caveat_key id ≡ ok m'
      → Minted p key m'

module _ (p : Primitives) (key : MacaroonKey) where
  -- By the laws of the primitives, whatever the operations build under a key (from locations in
  -- UTF-8, caveat keys of 32 bytes, and random sources that fill their buffers) is within the
  -- limits: a non-empty identifier, no field above
  -- 65535 bytes, locations in UTF-8, a signature of 32 bytes and at most 1000 caveats.
  pub Minted-IsValid : Laws p → {m : Macaroon} → Minted p key m → IsValid m
  Minted-IsValid laws (created location identifier text h) =
      create-IsValid p laws location key identifier text h
  Minted-IsValid laws (with_first_party predicate d h) =
      add_first_party_caveat-IsValid p laws predicate (Minted-IsValid laws d) h
  Minted-IsValid laws (with_third_party random location caveat_key id fills text is_key d h) =
      add_third_party_caveat-IsValid p laws random location caveat_key id fills text is_key
        (Minted-IsValid laws d) h

  -- Whatever the operations build under a root key (from locations in UTF-8, caveat keys of 32
  -- bytes, and random sources that fill their buffers) carries the signature of its chain under it.
  pub Minted-IsSigned : {m : Macaroon} → Minted p key m → IsSigned p key m
  Minted-IsSigned (created location identifier text h) = create-IsSigned p location key identifier h
  Minted-IsSigned (with_first_party predicate d h) =
      subst (IsSigned p key) (add_first_party_caveat-push p _ predicate h)
        (push_caveat-IsSigned p key _ _ (Minted-IsSigned d))
  Minted-IsSigned (with_third_party random location caveat_key id fills text is_key d h) =
      let (vid, sealed, e) = add_third_party_caveat-push p random _ location caveat_key id h in
      subst (IsSigned p key) e (push_caveat-IsSigned p key _ _ (Minted-IsSigned d))
