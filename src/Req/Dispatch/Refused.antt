-- ===== src/Req/Dispatch/Refused.antt =====
-- The branches of http_handler that lead to no backend.
use nd.Base.{
  sym, negsuc, ℕ, ◌≡◌, refl, ◌∙◌, inl, inr, Bool, true, false, Bool-cases, ◌||◌, Option, some, List,
  [], ◌∷◌, ◌++◌, if◌then◌else◌, codes, ℤ, pos, arith,
}
use nd.HttpClient.World.{Parts}
use nd.Req.Post.{errno_illegal_cmdno, errno_not_support_cmdno, get_post_data}
use nd.Req.Handler.{Reply, ReqT, Ctx, failed_text, failure_process}
use nd.Req.Dispatch.{
  Incoming, is_cmd, not_supported, illegal, read_post, distribute, http_notfound, http_badrequest,
  cmdno_class, cmdno_sample_and_sign, cmdno_search, cmdno_wordseg, cmdno_get_docs_by_doc,
  cmdno_get_docs_by_sign, cmdno_get_signs_by_doc,
}

-- The reply to a command number that leads to no backend.
abbrev pub refusal : ℤ → Reply
refusal k =
    if is_cmd k cmdno_get_docs_by_sign
      || is_cmd k cmdno_get_signs_by_doc
      || is_cmd k cmdno_get_docs_by_doc
      || is_cmd k cmdno_wordseg
      || is_cmd k cmdno_class
    then record {
      status = http_notfound;
      reason = codes "cmdno not support";
      body = failed_text errno_not_support_cmdno (codes "cmdno not support");
    }
    else record {
      status = http_badrequest;
      reason = codes "illegal cmdno";
      body = failed_text errno_illegal_cmdno (codes "illegal cmdno");
    }

-- The commands whose branch calls get_post_data, and what readbuf_len then is.
abbrev pub reads_post : ℤ → Bool
reads_post k =
    is_cmd k cmdno_search
    || is_cmd k cmdno_sample_and_sign
    || is_cmd k cmdno_wordseg
    || is_cmd k cmdno_class

abbrev pub len_of : ℤ → List ℕ → List ℕ → ℤ
len_of k input post_data = if reads_post k then (get_post_data input post_data).0 else pos 0

early_unread :
    (k : ℤ) → (is_cmd k 3 || is_cmd k 4 || is_cmd k 5) ≡ true → (is_cmd k 6 || is_cmd k 7) ≡ false
early_unread (pos n) h = ground (arith, h)
early_unread (negsuc n) h = refl

pub len_of_unread :
    (k : ℤ) (input post_data : List ℕ) → reads_post k ≡ false → len_of k input post_data ≡ pos 0
len_of_unread k input post_data h = ground (arith, h)

pub len_of_read :
    (k : ℤ) (input post_data : List ℕ)
    → reads_post k ≡ true
    → len_of k input post_data ≡ (get_post_data input post_data).0
len_of_read k input post_data h = ground (arith, h)

-- A run that refuses: one more reply, -10, no backend, the bases as they were.
pub data Refused (input : List ℕ) (r : ReqT) (c : Ctx) : Option (ReqT × Ctx) → Type 0 where
  refused :
      (r' : ReqT) (c' : Ctx)
      → r'.replies ≡ r.replies ++ refusal r.command_no ∷ []
      → r'.err_no ≡ errno_illegal_cmdno
      → r'.command_no ≡ r.command_no
      → r'.readbuf_len ≡ len_of r.command_no input c.post_data
      → c'.world ≡ c.world
      → c'.bases ≡ c.bases
      → Refused input r c (some (r', c'))

module _ (parse : List ℕ → Option Parts) (inc : Incoming) where
  pub distribute_refuses :
      (r : ReqT) (c : Ctx)
      → r.writebuf ≡ []
      → r.readbuf_len ≡ pos 0
      → is_cmd r.command_no 1 ≡ false
      → is_cmd r.command_no 2 ≡ false
      → is_cmd r.command_no 12 ≡ false
      → Refused inc.input r c (distribute parse inc r c)
  unfolding distribute not_supported illegal read_post failure_process
  distribute_refuses r c w z one two twelve =
      elim (Bool-cases (is_cmd r.command_no 3 || is_cmd r.command_no 4 || is_cmd r.command_no 5)) [
        | inl early ↦
            rw (one, two, early)
              (refused _ _ (ground (arith, early, w)) refl refl
                (z
                  ∙ sym (
                      len_of_unread r.command_no inc.input c.post_data
                        (ground (arith, one, two, early_unread r.command_no early))))
                refl refl)
        | inr early ↦ elim (Bool-cases (is_cmd r.command_no 6 || is_cmd r.command_no 7)) [
          | inl late ↦
              rw (one, two, early, late)
                (refused _ _ (ground (arith, early, late, w)) refl refl
                  (sym (len_of_read r.command_no inc.input c.post_data (ground (arith, late)))) refl
                  refl)
          | inr late ↦
              rw (one, two, early, late, twelve)
                (refused _ _ (ground (arith, early, late, w)) refl refl
                  (z
                    ∙ sym (
                        len_of_unread r.command_no inc.input c.post_data
                          (ground (arith, one, two, late))))
                  refl refl)
        ]
      ]

pub Refused-some :
    {input : List ℕ} {r : ReqT} {c : Ctx} {o : Option (ReqT × Ctx)}
    → Refused input r c o
    → (r' : ReqT) × (c' : Ctx) × (o ≡ some (r', c'))
      × (r'.replies ≡ r.replies ++ refusal r.command_no ∷ [])
      × (r'.err_no ≡ errno_illegal_cmdno)
      × (r'.command_no ≡ r.command_no)
      × (r'.readbuf_len ≡ len_of r.command_no input c.post_data)
      × (c'.world ≡ c.world)
      × (c'.bases ≡ c.bases)
Refused-some (refused r' c' a b k l d e) = (r', c', refl, a, b, k, l, d, e)
