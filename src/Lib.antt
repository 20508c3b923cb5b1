-- ===== src/Lib.antt =====
-- The enclave's agent: a verification library of its core.
--
-- A task reaches the enclave as a frame on a vsock stream (enclave/vsock/protocol.py). The controller
-- (enclave/agent/controller.py) then alternates between a call of the language model, through the planner,
-- and the tool calls that the model asks for, which run together, each with retries, through the router
-- (enclave/tools/router.py) and the registry (enclave/tools/base.py), until the model answers without a
-- tool call or a guard on cost, steps or time ends the task. The service (enclave/main.py) records the task
-- and its steps in a database (enclave/memory/state_db.py) and answers with the result; the client of the
-- model (enclave/agent/llm_client.py) is swapped at run time. A gateway on the host (host/api/main.py) keeps
-- the tasks that were submitted to it.
--
-- Files, with the code they model:
--   Base and its children             what the components share: native numbers and lists, texts as lists
--                                     of code points, JSON-like values, results, coroutines, dicts
--   Vsock/Protocol.antt               enclave/vsock/protocol.py: MessageFrame, encode_frame, decode_frame,
--                                     read_frame, write_frame
--   Agent/Models.antt                 enclave/agent/models.py: the data classes and their properties
--   Agent/Controller/Context.antt     controller.py: the token estimates and _compact_history
--   Agent/Controller/Output.antt      controller.py: _truncate_output, _safe_args_preview
--   Agent/Controller/Gather.antt      asyncio.gather over interleaved jobs
--   Agent/Controller/Retry.antt       controller.py: _dispatch_with_retry, and a step's calls together
--   Agent/Controller/State.antt       AgentController and the locals that its coroutines share
--   Agent/Controller/Loop.antt        controller.py: run_task and _run_step_loop
--   Agent/Controller/Permission.antt  controller.py: _check_permission, and the calls that ask for it
--   Agent/Controller/Turn.antt        controller.py: run_conversation_turn
--   Tools/Registry.antt               enclave/tools/base.py: ToolRegistry
--   Tools/Router.antt                 enclave/tools/router.py: ToolRouter.dispatch
--   Vsock/Server.antt                 enclave/vsock/server.py: VsockServer._handle_connection
--   Vsock/Client.antt                 enclave/vsock/client.py: VsockClient; its loops run on fuel, one more than
--                                     the bytes that arrive, of which every frame takes some
--   Tools/Args.antt, Tools/Disk.antt  the checks of arguments and the file system that the tools share
--   Tools/Edits.antt                  enclave/tools/edit_file.py and multi_edit_tool.py
--   Tools/FileOps.antt                enclave/tools/file_ops.py: FileSystem
--   Tools/ApiCall.antt                enclave/tools/api_call.py: APICallTool
--   Host/Verifier.antt                host/attestation/verifier.py
--   Crypto/Sealing.antt               enclave/crypto/sealing.py, and what it uses of enclave/crypto/keys.py
--   Memory/Store.antt                 enclave/tools/memory_tool.py: SimpleVectorStore
--   Memory/Search.antt                memory_tool.py: SimpleVectorStore.search, with exact scores
--   Memory/Manager.antt               enclave/memory/manager.py: MemoryManager
--   Memory/StateDb.antt               enclave/memory/state_db.py: TaskStateDB, its tables as lists of rows
--   Agent/LlmClient/Convert.antt      enclave/agent/llm_client.py: messages and tools for the interfaces
--                                     that are compatible with OpenAI's
--   Agent/LlmClient/Chat.antt         llm_client.py: the payload and the reply of such an interface
--   Agent/LlmClient/OpenRouter.antt   llm_client.py: OpenRouterClient with its retries
--   Agent/LlmClient/Anthropic.antt    llm_client.py: AnthropicClient
--   Agent/LlmClient/Mock.antt         llm_client.py: MockLLMClient
--   Agent/LlmClient/Providers.antt    llm_client.py: create_llm_client, get_available_providers
--   Service/State.antt                enclave/main.py: the settings and the state of EnclaveService
--   Service/Tasks.antt                main.py: _handle_task_request
--   Service/Reconfigure.antt          main.py: _handle_reconfigure, and the first choice of a client
--   Service/Handlers.antt             main.py: the other handlers, and their table
--   Host/Api.antt, Host/Api/Stream.antt  host/api/main.py: the tasks of the gateway and their events
-- The children of a module hold the proofs about it, and the modules named Tests the runs on concrete
-- inputs.
--
-- Stateful code is a function from the state to a result and the state behind it; a coroutine
-- (Base/Coroutine.antt) ends with a value, an exception, or the cancellation that asyncio.wait_for brings
-- about. A timeout around a coroutine therefore shows as a cancelled call of the model, of a tool or of
-- sleep inside it. The calls that a step gathers interleave by attempts: a schedule names the call that
-- makes each next attempt, and what it leaves undone is done in order. Its loops are structural
-- recursions on the passes that range(1, max_steps + 1) has left, so no fuel is needed.
--
-- Code that is not part of the repository is a parameter: the JSON codec, the language model's client,
-- Python's str and repr and its number formats (the record Format), the digest sha3_256, the tools and
-- sleep, the cipher and the key derivation of the sealing, how paths resolve and files fail (the record
-- Platform, and Workspace for the file operations), the HTTP posts and the SDK behind the clients (Http,
-- Net), the texts that encode bytes (Encoding), and what the service asks of its clock, keys and attestation
-- device (Outside, Times, Identity). Costs are exact, in millionths of a dollar, where the code adds floats;
-- times are in milliseconds, and those that the code reads from the clock and stores are arguments. Budgets
-- and step limits are natural numbers, so a negative limit is not modelled. Logging, and the timestamps and
-- elapsed seconds of events, steps and results are left out.
--
-- Not modelled: the tools that read_file, write_file and list_dir offer, and those that search, run
-- code, a shell, git or a browser; the tool around the memory; the parsing of attestation documents and the
-- providers of them; the streaming of a task's events, the start and the stop of the
-- service of enclave/main.py; the prompts of enclave/agent/planner.py; the clients of OpenAI, Groq, Gemini
-- and Ollama in enclave/agent/llm_client.py and its catalog of models; and the terminal interface.
pub mod Base
pub mod Agent
pub mod Crypto
pub mod Host
pub mod Memory
pub mod Service
pub mod Tools
pub mod Vsock
