-- ===== src/Access/Address.antt =====
-- The address of the card's server in the frame, and the length of the frame.
use tdm.Base.{
  ℕ, zero, suc, ◌+◌, ◌*◌, ◌<◌, sym, subst, Option, replicate, ltb, ◌-◌, ◌≤◌, ◌≡◌, refl, ap, ◌∙◌,
  true, none, some, List, [], ◌∷◌, ◌++◌, length, length-append, drop, take, get_or, arith,
}
use tdm.Base.Int.{}
use tdm.Deal.Answer.{Info}
use tdm.Frames.{SendFrame, bytes_of, to_byte}
use tdm.Text.{atoi}
use tdm.Values.{strtok_r}
use tdm.Values.Search.{lacks, strtok_r-last}
use tdm.Values.Reply.{token_first}
use tdm.Access.{set_data_ip_loop, set_data_ip, pack_success, success_frame, imsi_bytes}

-- A number of an address: a text that is not empty and has no dot.
abbrev pub IsPart : List ℕ → Type 0
IsPart s = (1 ≤ length s) × (lacks b'.' s ≡ true)

next_number :
    (fuel : ℕ) (s : List ℕ) (t : List ℕ × List ℕ)
    → strtok_r b'.' s ≡ some t
    → set_data_ip_loop (suc fuel) s ≡ to_byte (atoi t.0) ∷ set_data_ip_loop fuel t.1
unfolding set_data_ip_loop
next_number fuel s t e =
    ap (λ o. elim o [ none ↦ [] | some t ↦ to_byte (atoi t.0) ∷ set_data_ip_loop fuel t.1 ]) e

at_end : (fuel : ℕ) → set_data_ip_loop fuel [] ≡ []
unfolding set_data_ip_loop strtok_r
at_end zero = refl
at_end (suc fuel) = refl

last_number : (s : List ℕ) → IsPart s → strtok_r b'.' s ≡ some (s, [])
last_number [] (p, l) = absurd (omega arith)
last_number (c ∷ cs) (p, l) = strtok_r-last b'.' c cs l

-- The text of an address.
abbrev pub dotted : List ℕ → List ℕ → List ℕ → List ℕ → List ℕ
dotted s t u v = s ++ b'.' ∷ (t ++ b'.' ∷ (u ++ b'.' ∷ v))

length-dotted :
    (s t u v : List ℕ)
    → 1 ≤ length s
    → (n : ℕ) × (length (dotted s t u v) ≡ suc (suc (suc (suc n))))
length-dotted s t u v h = (
  length (dotted s t u v) - 4,
  omega (
    arith,
    length-append s (b'.' ∷ (t ++ b'.' ∷ (u ++ b'.' ∷ v))),
    length-append t (b'.' ∷ (u ++ b'.' ∷ v)),
    length-append u (b'.' ∷ v),
  ),
)

numbers_of : List ℕ → List ℕ → List ℕ → List ℕ → List ℕ
numbers_of s t u v = to_byte (atoi s) ∷ to_byte (atoi t) ∷ to_byte (atoi u) ∷ to_byte (atoi v) ∷ []

set_data_ip-dotted :
    (s t u v : List ℕ)
    → IsPart s
    → IsPart t
    → IsPart u
    → IsPart v
    → set_data_ip_loop (length (dotted s t u v)) (dotted s t u v) ≡ numbers_of s t u v
unfolding numbers_of
set_data_ip-dotted s t u v hs ht hu hv =
    let (n, e) = length-dotted s t u v hs.0 in
    let three = u ++ b'.' ∷ v in
    let two = t ++ b'.' ∷ three in
    ap (λ k. set_data_ip_loop k (dotted s t u v)) e
    ∙ next_number (suc (suc (suc n))) (dotted s t u v) (s, two) (token_first b'.' s two hs.0 hs.1)
    ∙ ap (λ r. to_byte (atoi s) ∷ r)
        (next_number (suc (suc n)) two (t, three) (token_first b'.' t three ht.0 ht.1)
          ∙ ap (λ r. to_byte (atoi t) ∷ r)
              (next_number (suc n) three (u, v) (token_first b'.' u v hu.0 hu.1)
                ∙ ap (λ r. to_byte (atoi u) ∷ r)
                    (next_number n v (v, []) (last_number v hv)
                      ∙ ap (λ r. to_byte (atoi v) ∷ r) (at_end n))))

drop_prefix : (xs ys : List ℕ) (n : ℕ) → drop (length xs + n) (xs ++ ys) ≡ drop n ys
drop_prefix [] ys n = ap (λ k. drop k ys) (omega arith)
drop_prefix (x ∷ xs) ys n =
    let next : length (x ∷ xs) + n ≡ suc (length xs + n) = omega arith in
    ap (λ k. drop k (x ∷ (xs ++ ys))) next ∙ drop_prefix xs ys n

pub length-imsi_bytes : (d : Info) → length (imsi_bytes d) ≡ 9
length-imsi_bytes d = nine d.imsi 9
  where
    nine : (xs : List ℕ) (n : ℕ) → length (take n (xs ++ replicate n 0)) ≡ n
    nine xs n =
        at_least n (xs ++ replicate n 0) (omega (arith, length-append xs (replicate n 0), zeros n))
      where
        zeros : (n : ℕ) → length {A = ℕ} (replicate n 0) ≡ n
        zeros zero = refl
        zeros (suc n) = let ih = zeros n in omega arith

        at_least : (n : ℕ) (ys : List ℕ) → n ≤ length ys → length (take n ys) ≡ n
        at_least zero ys h = refl
        at_least (suc n) [] h = absurd (omega arith)
        at_least (suc n) (y ∷ ys) h = let ih = at_least n ys (omega arith) in omega arith

behind_imsi : (d : Info) (rest : List ℕ) → drop 21 (imsi_bytes d ++ rest) ≡ drop 12 rest
behind_imsi d rest =
    let n = length-imsi_bytes d in
    let k : 21 ≡ length (imsi_bytes d) + 12 = omega arith in
    ap (λ k. drop k (imsi_bytes d ++ rest)) k ∙ drop_prefix (imsi_bytes d) rest 12

-- A frame whose header, length and bytes 32 to 35 are as they should be.
abbrev pub IsFrame : List ℕ → Option (SendFrame × ℕ) → Type 0
IsFrame address none = ⊥
IsFrame address (some (f, n)) =
    (length (bytes_of f) ≡ n)
    × ((n ≡ 4 + f.frame_size_l + 256 * f.frame_size_h) × (take 4 (drop 32 (bytes_of f)) ≡ address))

success-IsFrame :
    (d : Info) (threshold : ℕ) (ip : List ℕ)
    → IsFrame
        (get_or ip 0 0 ∷ get_or ip 1 0 ∷ get_or ip 2 0 ∷ get_or ip 3 0 ∷ [])
        (some (success_frame d threshold ip))
success-IsFrame d threshold ip =
    let n = length-imsi_bytes d in
    (omega (arith, length-append (imsi_bytes d) _), (refl, ap (take 4) (behind_imsi d _)))

-- For a session whose address is four numbers with dots between them, each a text that is not empty, of
-- less than 20 characters together, the frame of success has as many bytes as `AccessAuth_Result_Pack`
-- returns, which are 4 more than its header says, and its bytes 32 to 35 are the four numbers.
pub pack_success-dotted :
    (d : Info) (threshold : ℕ) (s t u v : List ℕ)
    → d.ip ≡ dotted s t u v
    → length (dotted s t u v) < 20
    → IsPart s
    → IsPart t
    → IsPart u
    → IsPart v
    → IsFrame
        (to_byte (atoi s) ∷ to_byte (atoi t) ∷ to_byte (atoi u) ∷ to_byte (atoi v) ∷ [])
        (pack_success d threshold)
unfolding pack_success numbers_of set_data_ip
pack_success-dotted d threshold s t u v e short hs ht hu hv =
    let numbers = set_data_ip-dotted s t u v hs ht hu hv in
    let room : ltb (length (dotted s t u v)) 20 ≡ true = ground arith in
    rw (e, room)
      (subst (λ ip. IsFrame (numbers_of s t u v) (some (success_frame d threshold ip)))
        (sym numbers) (success-IsFrame d threshold (numbers_of s t u v)))
