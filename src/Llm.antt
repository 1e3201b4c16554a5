-- ===== src/Llm.antt =====
-- brain/llm: the parser of responses, the prompts, and the evaluation backed by a language model.
pub mod Env
pub mod Parse
pub mod Prompt
pub mod Cache
pub mod Eval
