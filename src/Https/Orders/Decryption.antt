-- ===== src/Https/Orders/Decryption.antt =====
-- An order in encrypted parameters: its key, its decryption, and what is in it.
use libwebsocket_component.Prelude.{
  ◌⊎◌, Bool-cases, aborted, is_empty, ◌≡◌, refl, inl, inr, true, false, [], Option, codes, done,
  Bool-cases,
}
use libwebsocket_component.Https.Query.{Text}
use libwebsocket_component.Https.Query.Ends.{parse_query-done}
use libwebsocket_component.Https.Numbers.{ℤ}
use libwebsocket_component.Https.Urls.Passes.{multiple_decode-cases}
use libwebsocket_component.Https.Orders.{
  proxy_md5_code_error, proxy_des_code_error, AgentInfo, OrderEnv, fail, bad_op_value,
}
use libwebsocket_component.Https.Orders.{remove_lines}
use libwebsocket_component.Https.Orders.Handlers.{
  decrypt_again, Req, do_order_execute, key_matches, decrypt_value, decrypted_order, check_key,
}
use libwebsocket_component.Https.Orders.Judgement.{
  IsActive, Returned, Undecodable, do_order_execute-Judged, ordered-Returned,
}

module _ (env : OrderEnv) (agent_info : ℤ → Option AgentInfo) where
  open env use {Double, zero_score, atof, int_of_hundredfold, html_decode, aes_ecb_decrypt}

  decrypted_order-Returned :
      (R : Type 0) (text : Text) (q : Req env)
      → q.executed ≡ []
      → bad_op_value q ≡ false
      → IsActive env agent_info q.agent_id
      → Returned env agent_info R (decrypted_order env text q)
  unfolding decrypted_order
  decrypted_order-Returned R text q he ho active = elim (Bool-cases (is_empty text)) [
    | inl e ↦ inl (
      fail proxy_des_code_error (codes "DESDecrypt failed, AES_set_decrypt_key error") q,
      rw e refl,
      inl (he, refl),
    )
    | inr e ↦
        (let (inner, ei) = parse_query-done text in
          rw (e, ei)
            (ordered-Returned env agent_info R inner q (λ r. done (do_order_execute env r)) he
              (λ x. ho)
              λ r la ready. inl (
                do_order_execute env r,
                refl,
                do_order_execute-Judged env agent_info r ready
                    (subst_active r.agent_id q.agent_id la active),
              )))
  ]
    where
      subst_active : (a b : ℤ) → a ≡ b → IsActive env agent_info b → IsActive env agent_info a
      subst_active a b e h = rw e h

  -- The decryption gives a text, or the value is read past its end.
  decrypt_value-cases :
      (descode para_value : Text)
      → ((t : Text) × (decrypt_value env descode para_value ≡ done t))
        ⊎ (Undecodable env agent_info descode para_value
            × (decrypt_value env descode para_value ≡ aborted))
  unfolding decrypt_value decrypt_again
  decrypt_value-cases descode para_value = elim (multiple_decode-cases (html_decode para_value)) [
    | inr e ↦ inr (inl e, rw e refl)
    | inl (d, e) ↦ elim (Bool-cases (is_empty (aes_ecb_decrypt (remove_lines d) descode))) [
      | inr f ↦ inl (aes_ecb_decrypt (remove_lines d) descode, rw (e, f) refl)
      | inl f ↦ elim (multiple_decode-cases (remove_lines d)) [
        | inl (u, g) ↦ inl (aes_ecb_decrypt (remove_lines u) descode, rw (e, f, g) refl)
        | inr g ↦ inr (inr (d, e, f, g), rw (e, f, g) refl)
      ]
    ]
  ]

  pub check_key-Returned :
      (timestamp para_value key : Text) (q : Req env) (info : AgentInfo)
      → q.executed ≡ []
      → bad_op_value q ≡ false
      → IsActive env agent_info q.agent_id
      → Returned env agent_info
          ((key_matches env q.agent_id timestamp info.md5code key ≡ true)
            × Undecodable env agent_info info.descode para_value)
          (check_key env timestamp para_value key q info)
  unfolding check_key
  check_key-Returned timestamp para_value key q info he ho active =
      elim (Bool-cases (key_matches env q.agent_id timestamp info.md5code key)) [
        | inl e ↦ (elim (decrypt_value-cases info.descode para_value) [
          | inl (t, d) ↦
              rw (e, d)
                (decrypted_order-Returned
                  ((true ≡ true) × Undecodable env agent_info info.descode para_value) t q he ho
                  active)
          | inr (v, d) ↦ rw (e, d) (inr ((refl, v), refl))
        ])
        | inr e ↦
            inl (fail proxy_md5_code_error (codes "md5 check error") q, rw e refl, inl (he, refl))
      ]
