-- ===== src/Webhook/ForwardedLaws.antt =====
-- internal/webhook/forwarded.go: a client cannot choose the address that the application is told.
use sidecartunnel.Base.{
  ◌≡◌, refl, ap, ◌∙◌, inl, inr, Bool, true, false, not, ◌||◌, Option, none, some, List, [], ◌∷◌,
  ◌++◌, arith, Bool-cases, Option-cases, Bytes,
}
use mathlib.Core.List.{reverse, reverse-append}
use sidecartunnel.Text.{split}
use sidecartunnel.Text.Laws.{split-append}
use sidecartunnel.Webhook.Forwarded.{within, parse_hop, walk, forwarded_for}

module _ {ℓ} {Addr : Type ℓ} (parse_addr : Bytes → Option Addr) (host_of : Bytes → Option Bytes)
    (canonical : Addr → Addr) (trim_space : Bytes → Bytes) (trusted : List (Addr → Bool)) where
  -- The walk ends at a hop: it is no address, or the address of no trusted proxy.
  abbrev pub stops : Bytes → Bool
  stops hop = elim (parse_hop parse_addr host_of canonical (trim_space hop)) [
    | none ↦ true
    | some addr ↦ not (within addr trusted)
  ]

  abbrev pub stops_at : List Bytes → Bool
  stops_at [] = false
  stops_at (hop ∷ hops) = stops hop || stops_at hops

  walk-append :
      (peer : Addr) (hops more : List Bytes)
      → stops_at hops ≡ true
      → walk parse_addr host_of canonical trim_space trusted peer (hops ++ more)
        ≡ walk parse_addr host_of canonical trim_space trusted peer hops
  unfolding walk
  walk-append peer [] more h = cc
  walk-append peer (hop ∷ hops) more h =
      elim (Option-cases (parse_hop parse_addr host_of canonical (trim_space hop))) [
        | inl e ↦ rw (e, walk) refl
        | inr (addr, e) ↦ elim (Bool-cases (within addr trusted)) [
          | inl t ↦ rw (e, walk) (rw t (walk-append peer hops more (ground arith)))
          | inr t ↦ rw (e, walk) (rw t refl)
        ]
      ]

  stops_at-append :
      (hops more : List Bytes) → stops_at (hops ++ more) ≡ (stops_at hops || stops_at more)
  stops_at-append [] more = refl
  stops_at-append (hop ∷ hops) more = ground (arith, stops_at-append hops more)

  stops_at-reverse : (hops : List Bytes) → stops_at (reverse hops) ≡ stops_at hops
  stops_at-reverse [] = refl
  stops_at-reverse (hop ∷ hops) =
      ap stops_at (reverse-append (hop ∷ []) hops)
      ∙ stops_at-append (reverse hops) (hop ∷ [])
      ∙ ground (arith, stops_at-reverse hops)

  -- Whatever stands before a comma of X-Forwarded-For changes nothing, where some hop after that comma is no
  -- address, or the address of no trusted proxy.
  pub forwarded_for-left :
      (text_of : Addr → Bytes) (peer left right : Bytes)
      → stops_at (split right b',') ≡ true
      → forwarded_for parse_addr host_of canonical trim_space trusted text_of peer
          (left ++ b',' ∷ right)
        ≡ forwarded_for parse_addr host_of canonical trim_space trusted text_of peer right
  unfolding forwarded_for
  forwarded_for-left text_of peer left right h =
      elim (Option-cases (parse_hop parse_addr host_of canonical peer)) [
        | inl e ↦ rw (e, forwarded_for) refl
        | inr (addr, e) ↦
            rw
              (
                e,
                forwarded_for,
                split-append left right b',',
                reverse-append (split left b',') (split right b','),
                walk-append addr (reverse (split right b',')) (reverse (split left b','))
                    (stops_at-reverse (split right b',') ∙ h),
              )
              refl
      ]
